-- ===== src/StreamManager/Manager/Invariant.antt =====
-- Every stream stands under its own name with a sound thread, after any history.
use infer_server.Base.{
  refl, inl, inr, String, List, [], ◌∷◌, Option-cases, Bool-cases, String_discrete,
}
use infer_server.Base.Dict.{
  insert-IsKeyed, erase-IsKeyed, map-IsKeyed, insert-Entries, erase-Entries, map-Entries,
}
use infer_server.Types.{StreamConfig, FrameResult}
use infer_server.StreamManager.{Devices}
use infer_server.StreamManager.Decoding.Stopping.{thread_step-IsSound}
use infer_server.StreamManager.Manager.{
  StreamManager, World, join, stop_stream_internal, add_stream, remove_stream, start_stream,
  stop_stream, start_each, not_running, start_all, stop_all, decode_in, load_and_start,
  on_infer_result, launch, new_context, find_stream, reset_statistics,
}
use infer_server.StreamManager.Manager.Branches.{
  added, removed, add_stream-nameless, add_stream-known, add_stream-new, remove_stream-missing,
  remove_stream-there, start_stream-missing, start_stream-runs, start_stream-rests,
  stop_stream-missing, stop_stream-there, decode_in-missing, decode_in-there,
}
use infer_server.StreamManager.Manager.Joining.{thread_step-Kept, join-Joined}
use infer_server.StreamManager.Manager.History.{
  Call, adds, removes, starts, stops, starts_all, stops_all, loads, decodes, infers, step, run,
}
use infer_server.StreamManager.Manager.Managed.{
  OfStream, IsManaged, put_stream-IsManaged, save_configs-IsManaged, found, named, stopped-OfStream,
}

module _ {F : Type 0} (dev : Devices) where
  add_stream-IsManaged :
      (w : World) (c : StreamConfig F) (m : StreamManager F)
      → IsManaged m
      → IsManaged (add_stream dev w c m).0
  unfolding launch new_context
  add_stream-IsManaged w c m h = elim (String_discrete c.cam_id "") [
    | yes e ↦ rw (add_stream-nameless dev w "" m c e) h
    | no n ↦ elim (Option-cases (find_stream c.cam_id m)) [
      | inl new ↦ rw (add_stream-new dev w "" m c n new) (
          save_configs-IsManaged w (added dev w "" m c) (record {
            keyed = insert-IsKeyed String_discrete c.cam_id _ m.streams h.keyed;
            each =
                insert-Entries String_discrete OfStream c.cam_id _ m.streams h.each
                  (refl, (refl, inl refl));
          }))
      | inr (ctx, known) ↦ rw (add_stream-known dev w "" m c known) h
    ]
  ]

  remove_stream-IsManaged :
      (w : World) (cam : String) (m : StreamManager F)
      → IsManaged m
      → IsManaged (remove_stream dev w cam m).0
  remove_stream-IsManaged w cam m h = elim (Option-cases (find_stream cam m)) [
    | inl missing ↦ rw (remove_stream-missing dev w cam m missing) h
    | inr (ctx, there) ↦ rw (remove_stream-there dev w cam m there) (
        save_configs-IsManaged w (removed dev w cam m) (record {
          keyed = erase-IsKeyed String_discrete cam m.streams h.keyed;
          each = erase-Entries String_discrete OfStream cam m.streams h.each;
        }))
  ]

  start_stream-IsManaged :
      (w : World) (cam : String) (m : StreamManager F)
      → IsManaged m
      → IsManaged (start_stream dev w cam m).0
  unfolding launch reset_statistics
  start_stream-IsManaged w cam m h = elim (Option-cases (find_stream cam m)) [
    | inl missing ↦ rw (start_stream-missing dev w cam m missing) h
    | inr (ctx, there) ↦ elim (Bool-cases ctx.running) [
      | inl runs ↦ rw (start_stream-runs dev w cam m there runs) h
      | inr rests ↦
          let (name, sound) = found cam ctx m h there in
          let joined = join-Joined dev m.config w ctx sound (inr rests) in
          rw (start_stream-rests dev w cam m ctx there rests)
            (put_stream-IsManaged cam _ m h (named cam joined.2.0 name, (refl, inl refl)))
    ]
  ]

  stop_stream-IsManaged :
      (w : World) (cam : String) (m : StreamManager F)
      → IsManaged m
      → IsManaged (stop_stream dev w cam m).0
  stop_stream-IsManaged w cam m h = elim (Option-cases (find_stream cam m)) [
    | inl missing ↦ rw (stop_stream-missing dev w cam m missing) h
    | inr (ctx, there) ↦ rw (stop_stream-there dev w cam m ctx there) (
        put_stream-IsManaged cam _ m h
          (stopped-OfStream dev w m.config cam ctx (found cam ctx m h there)))
  ]

  decode_in-IsManaged :
      (w : World) (cam : String) (m : StreamManager F)
      → IsManaged m
      → IsManaged (decode_in dev w cam m).0
  decode_in-IsManaged w cam m h = elim (Option-cases (find_stream cam m)) [
    | inl missing ↦ rw (decode_in-missing dev w cam m missing) h
    | inr (ctx, there) ↦
        let (name, sound) = found cam ctx m h there in
        rw (decode_in-there dev w cam m ctx there) (
          put_stream-IsManaged cam _ m h (
            named cam (thread_step-Kept dev m.config w.answers ctx).0 name,
            thread_step-IsSound dev m.config w.answers ctx sound,
          ))
  ]

  on_infer_result-IsManaged :
      (result : FrameResult F) (m : StreamManager F)
      → IsManaged m
      → IsManaged (on_infer_result result m)
  unfolding on_infer_result
  on_infer_result-IsManaged result m h = elim (Option-cases (find_stream result.cam_id m)) [
    | inl missing ↦ rw (on_infer_result, missing) h
    | inr (ctx, there) ↦
        rw (on_infer_result, there)
          (put_stream-IsManaged result.cam_id _ m h (found result.cam_id ctx m h there))
  ]

  start_each-IsManaged :
      (w : World) (cams : List String) (m : StreamManager F)
      → IsManaged m
      → IsManaged (start_each dev w cams m)
  unfolding start_each
  start_each-IsManaged w [] m h = h
  start_each-IsManaged w (cam ∷ cams) m h =
      start_each-IsManaged w cams _ (start_stream-IsManaged w cam m h)

  load_and_start-IsManaged :
      (w : World) (configs : List (StreamConfig F)) (m : StreamManager F)
      → IsManaged m
      → IsManaged (load_and_start dev w configs m)
  unfolding load_and_start
  load_and_start-IsManaged w [] m h = h
  load_and_start-IsManaged w (c ∷ configs) m h =
      load_and_start-IsManaged w configs _ (add_stream-IsManaged w c m h)

  step-IsManaged :
      (w : World) (call : Call F) (m : StreamManager F)
      → IsManaged m
      → IsManaged (step dev w call m)
  unfolding step start_all stop_all
  step-IsManaged w (adds c) m h = add_stream-IsManaged w c m h
  step-IsManaged w (removes cam) m h = remove_stream-IsManaged w cam m h
  step-IsManaged w (starts cam) m h = start_stream-IsManaged w cam m h
  step-IsManaged w (stops cam) m h = stop_stream-IsManaged w cam m h
  step-IsManaged w starts_all m h = start_each-IsManaged w (not_running dev w m.streams) m h
  step-IsManaged w stops_all m h = record {
    keyed =
        map-IsKeyed String_discrete (λ ctx. join dev w m.config (stop_stream_internal ctx))
          m.streams h.keyed;
    each =
        map-Entries OfStream OfStream (λ ctx. join dev w m.config (stop_stream_internal ctx))
          m.streams (stopped-OfStream dev w m.config) h.each;
  }
  step-IsManaged w (loads configs) m h = load_and_start-IsManaged w configs m h
  step-IsManaged w (decodes cam) m h = decode_in-IsManaged w cam m h
  step-IsManaged w (infers result) m h = on_infer_result-IsManaged result m h

  -- After any history no name has two streams, every stream stands under the name that its
  -- configuration gives, and its flags agree with where its thread is: marked as running until the
  -- thread has ended, `running` while it decodes, `stopped` at its end, waits of at most eight
  -- seconds.
  pub run-IsManaged :
      (calls : List (World × Call F)) (m : StreamManager F)
      → IsManaged m
      → IsManaged (run dev calls m)
  unfolding run
  run-IsManaged [] m h = h
  run-IsManaged ((w, call) ∷ calls) m h =
      run-IsManaged calls (step dev w call m) (step-IsManaged w call m h)
