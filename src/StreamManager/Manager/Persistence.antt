-- ===== src/StreamManager/Manager/Persistence.antt =====
-- The file of configurations and the streams, as long as calls that save do not overlap.
use infer_server.Base.{
  ◌≡◌, refl, ap, sym, ◌∙◌, inl, inr, true, String, List, [], ◌∷◌, some, map, Option-cases,
  Bool-cases, String_discrete, All,
}
use infer_server.Base.Dict.{Dict, map-insert_same}
use infer_server.Types.{StreamConfig, ServerConfig, FrameResult}
use infer_server.StreamManager.{StreamContext, Devices}
use infer_server.StreamManager.Manager.{
  StreamManager, World, join, stop_stream_internal, add_stream, remove_stream, start_stream,
  stop_stream, start_each, not_running, start_all, stop_all, decode_in, load_and_start,
  on_infer_result, save_configs, launch, get_all_configs, find_stream, put_stream, reset_statistics,
}
use infer_server.StreamManager.Manager.Branches.{
  added, removed, add_stream-nameless, add_stream-known, add_stream-new, remove_stream-missing,
  remove_stream-there, start_stream-missing, start_stream-runs, start_stream-rests,
  stop_stream-missing, stop_stream-there, decode_in-missing, decode_in-there,
}
use infer_server.StreamManager.Manager.Joining.{thread_step-Kept, join-Kept}
use infer_server.StreamManager.Manager.History.{
  Call, adds, removes, starts, stops, starts_all, stops_all, loads, decodes, infers, step, run,
}

module _ {F : Type 0} where
  -- The file holds the configurations of the streams, in their order.
  abbrev pub Stored : StreamManager F → Type 0
  Stored m = m.saved ≡ get_all_configs m

  -- The same configurations, and the same file.
  abbrev pub Unchanged : StreamManager F → StreamManager F → Type 0
  Unchanged m' m = (get_all_configs m' ≡ get_all_configs m) × (m'.saved ≡ m.saved)

  Unchanged-Stored : (m' m : StreamManager F) → Unchanged m' m → Stored m → Stored m'
  Unchanged-Stored m' m same h = same.1 ∙ h ∙ sym same.0

  put_stream-Unchanged :
      (cam : String) (ctx ctx' : StreamContext F) (m : StreamManager F)
      → find_stream cam m ≡ some ctx
      → ctx'.config ≡ ctx.config
      → Unchanged (put_stream cam ctx' m) m
  unfolding put_stream get_all_configs find_stream
  put_stream-Unchanged cam ctx ctx' m e same =
      (map-insert_same String_discrete (λ c. c.config) cam ctx' ctx m.streams e same, refl)

  save_configs-Stored :
      (w : World) (m : StreamManager F) → w.saves ≡ true → Stored (save_configs w m)
  unfolding save_configs get_all_configs
  save_configs-Stored w m e = rw e refl

  stopping-config : (ctx : StreamContext F) → (stop_stream_internal ctx).config ≡ ctx.config
  unfolding stop_stream_internal
  stopping-config ctx = elim (Bool-cases ctx.running) [ inl e ↦ rw e refl | inr e ↦ rw e refl ]

  module _ (dev : Devices) (w : World) where
    stopped-config :
        (server : ServerConfig) (ctx : StreamContext F)
        → (join dev w server (stop_stream_internal ctx)).config ≡ ctx.config
    stopped-config server ctx =
        (join-Kept dev server w (stop_stream_internal ctx)).0 ∙ stopping-config ctx

    add_stream-Stored :
        (c : StreamConfig F) (m : StreamManager F)
        → w.saves ≡ true
        → Stored m
        → Stored (add_stream dev w c m).0
    add_stream-Stored c m s h = elim (String_discrete c.cam_id "") [
      | yes e ↦ rw (add_stream-nameless dev w "" m c e) h
      | no n ↦ elim (Option-cases (find_stream c.cam_id m)) [
        | inl new ↦
            rw (add_stream-new dev w "" m c n new) (save_configs-Stored w (added dev w "" m c) s)
        | inr (ctx, known) ↦ rw (add_stream-known dev w "" m c known) h
      ]
    ]

    remove_stream-Stored :
        (cam : String) (m : StreamManager F)
        → w.saves ≡ true
        → Stored m
        → Stored (remove_stream dev w cam m).0
    remove_stream-Stored cam m s h = elim (Option-cases (find_stream cam m)) [
      | inl missing ↦ rw (remove_stream-missing dev w cam m missing) h
      | inr (ctx, there) ↦
          rw (remove_stream-there dev w cam m there) (save_configs-Stored w (removed dev w cam m) s)
    ]

    start_stream-Unchanged :
        (cam : String) (m : StreamManager F) → Unchanged (start_stream dev w cam m).0 m
    unfolding launch reset_statistics
    start_stream-Unchanged cam m = elim (Option-cases (find_stream cam m)) [
      | inl missing ↦ rw (start_stream-missing dev w cam m missing) (refl, refl)
      | inr (ctx, there) ↦ elim (Bool-cases ctx.running) [
        | inl runs ↦ rw (start_stream-runs dev w cam m there runs) (refl, refl)
        | inr rests ↦
            rw (start_stream-rests dev w cam m ctx there rests)
              (put_stream-Unchanged cam ctx _ m there (join-Kept dev m.config w ctx).0)
      ]
    ]

    stop_stream-Unchanged :
        (cam : String) (m : StreamManager F) → Unchanged (stop_stream dev w cam m).0 m
    stop_stream-Unchanged cam m = elim (Option-cases (find_stream cam m)) [
      | inl missing ↦ rw (stop_stream-missing dev w cam m missing) (refl, refl)
      | inr (ctx, there) ↦
          rw (stop_stream-there dev w cam m ctx there)
            (put_stream-Unchanged cam ctx _ m there (stopped-config m.config ctx))
    ]

    decode_in-Unchanged :
        (cam : String) (m : StreamManager F) → Unchanged (decode_in dev w cam m).0 m
    decode_in-Unchanged cam m = elim (Option-cases (find_stream cam m)) [
      | inl missing ↦ rw (decode_in-missing dev w cam m missing) (refl, refl)
      | inr (ctx, there) ↦
          rw (decode_in-there dev w cam m ctx there)
            (put_stream-Unchanged cam ctx _ m there (thread_step-Kept dev m.config w.answers ctx).0)
    ]

    start_each-Unchanged :
        (cams : List String) (m : StreamManager F) → Unchanged (start_each dev w cams m) m
    unfolding start_each
    start_each-Unchanged [] m = (refl, refl)
    start_each-Unchanged (cam ∷ cams) m =
        let one = start_stream-Unchanged cam m in
        let rest = start_each-Unchanged cams (start_stream dev w cam m).0 in
        (rest.0 ∙ one.0, rest.1 ∙ one.1)

    load_and_start-Stored :
        (configs : List (StreamConfig F)) (m : StreamManager F)
        → w.saves ≡ true
        → Stored m
        → Stored (load_and_start dev w configs m)
    unfolding load_and_start
    load_and_start-Stored [] m s h = h
    load_and_start-Stored (c ∷ configs) m s h =
        load_and_start-Stored configs _ s (add_stream-Stored c m s h)

    configs-stopped :
        (server : ServerConfig) (streams : Dict String (StreamContext F))
        → map
            (λ (e : String × StreamContext F). e.1.config)
            (map
              (λ (e : String × StreamContext F).
                (e.0, join dev w server (stop_stream_internal e.1)))
              streams)
          ≡ map (λ (e : String × StreamContext F). e.1.config) streams
    configs-stopped server [] = refl
    configs-stopped server ((cam, ctx) ∷ streams) =
        rw (stopped-config server ctx) (ap (◌∷◌ ctx.config) (configs-stopped server streams))

    stop_all-Unchanged : (m : StreamManager F) → Unchanged (stop_all dev w m) m
    unfolding stop_all get_all_configs
    stop_all-Unchanged m = (configs-stopped m.config m.streams, refl)

  on_infer_result-Unchanged :
      (result : FrameResult F) (m : StreamManager F) → Unchanged (on_infer_result result m) m
  unfolding on_infer_result
  on_infer_result-Unchanged result m = elim (Option-cases (find_stream result.cam_id m)) [
    | inl missing ↦ rw (on_infer_result, missing) (refl, refl)
    | inr (ctx, there) ↦
        rw (on_infer_result, there) (put_stream-Unchanged result.cam_id ctx _ m there refl)
  ]

  -- A call that neither adds nor removes a stream.
  abbrev pub IsQuiet : Call F → Type 0
  IsQuiet (adds c) = ⊥
  IsQuiet (removes cam) = ⊥
  IsQuiet (loads configs) = ⊥
  IsQuiet call = Unit

  module _ (dev : Devices) where
    pub step-Unchanged :
        (w : World) (call : Call F) (m : StreamManager F)
        → IsQuiet call
        → Unchanged (step dev w call m) m
    unfolding step start_all
    step-Unchanged w (adds c) m q = absurd q
    step-Unchanged w (removes cam) m q = absurd q
    step-Unchanged w (loads configs) m q = absurd q
    step-Unchanged w (starts cam) m q = start_stream-Unchanged dev w cam m
    step-Unchanged w (stops cam) m q = stop_stream-Unchanged dev w cam m
    step-Unchanged w starts_all m q = start_each-Unchanged dev w (not_running dev w m.streams) m
    step-Unchanged w stops_all m q = stop_all-Unchanged dev w m
    step-Unchanged w (decodes cam) m q = decode_in-Unchanged dev w cam m
    step-Unchanged w (infers result) m q = on_infer_result-Unchanged result m

    quiet-Stored :
        (w : World) (call : Call F) (m : StreamManager F)
        → IsQuiet call
        → Stored m
        → Stored (step dev w call m)
    quiet-Stored w call m q h = Unchanged-Stored (step dev w call m) m (step-Unchanged w call m q) h

    step-Stored :
        (w : World) (call : Call F) (m : StreamManager F)
        → w.saves ≡ true
        → Stored m
        → Stored (step dev w call m)
    unfolding step
    step-Stored w (adds c) m s h = add_stream-Stored dev w c m s h
    step-Stored w (removes cam) m s h = remove_stream-Stored dev w cam m s h
    step-Stored w (loads configs) m s h = load_and_start-Stored dev w configs m s h
    step-Stored w (starts cam) m s h = quiet-Stored w (starts cam) m tt h
    step-Stored w (stops cam) m s h = quiet-Stored w (stops cam) m tt h
    step-Stored w starts_all m s h = quiet-Stored w starts_all m tt h
    step-Stored w stops_all m s h = quiet-Stored w stops_all m tt h
    step-Stored w (decodes cam) m s h = quiet-Stored w (decodes cam) m tt h
    step-Stored w (infers result) m s h = quiet-Stored w (infers result) m tt h

    -- If calls that add or remove a stream do not overlap, and every save succeeds, the file holds
    -- exactly the configurations of the streams after any history, if it did at the start.
    pub run-Stored :
        (calls : List (World × Call F)) (m : StreamManager F)
        → All (λ c. c.0.saves ≡ true) calls
        → Stored m
        → Stored (run dev calls m)
    unfolding run
    run-Stored [] m s h = h
    run-Stored ((w, call) ∷ calls) m s h =
        run-Stored calls (step dev w call m) s.1 (step-Stored w call m s.0 h)
