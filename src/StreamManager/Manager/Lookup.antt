-- ===== src/StreamManager/Manager/Lookup.antt =====
-- What the operations do to the stream that they name, and to the others.
use infer_server.Base.{
  ◌≡◌, ◌≢◌, refl, sym, ◌∙◌, ◌⊎◌, inl, inr, true, false, String, [], none, some, Option-cases,
  Bool-cases, String_discrete,
}
use infer_server.Base.Dict.{
  contains-none, contains-some, find-insert_self, find-insert_ne, find-erase_self, find-erase_ne,
}
use infer_server.Types.{StreamConfig, StreamState}
use infer_server.StreamManager.{StreamContext, Devices, outer}
use infer_server.StreamManager.Labels.{load_labels}
use infer_server.StreamManager.Manager.{
  StreamManager, World, join, stop_stream_internal, add_stream, remove_stream, start_stream,
  stop_stream, reset_statistics, save_configs, launch, new_context, has_stream, find_stream,
  put_stream,
}
use infer_server.StreamManager.Manager.Branches.{
  added, removed, add_stream-nameless, add_stream-known, add_stream-new, remove_stream-missing,
  remove_stream-there, start_stream-rests, stop_stream-there,
}
use infer_server.StreamManager.Manager.Joining.{Joined, join-Kept}
use infer_server.StreamManager.Manager.Managed.{IsManaged, found, stopped-Joined}

module _ {F : Type 0} (dev : Devices) (w : World) where
  -- The other streams are found as before.
  abbrev pub Others : String → StreamManager F → StreamManager F → Type 0
  Others cam m' m = (other : String) → cam ≢ other → find_stream other m' ≡ find_stream other m

  find-save :
      (cam : String) (m : StreamManager F) → find_stream cam (save_configs w m) ≡ find_stream cam m
  unfolding save_configs find_stream
  find-save cam m = elim (Bool-cases w.saves) [ inl e ↦ rw e refl | inr e ↦ rw e refl ]

  -- Without a name, or with a name that is there, nothing changes and the call fails.
  pub add_stream_refused :
      (c : StreamConfig F) (m : StreamManager F)
      → (c.cam_id ≡ "") ⊎ (find_stream c.cam_id m ≢ none)
      → add_stream dev w c m ≡ (m, false)
  add_stream_refused c m (inl e) = add_stream-nameless dev w "" m c e
  add_stream_refused c m (inr there) = elim (Option-cases (find_stream c.cam_id m)) [
    | inl missing ↦ absurd (there missing)
    | inr (ctx, known) ↦ add_stream-known dev w "" m c known
  ]

  -- A stream whose thread has just been started, at the head of its outer loop and with a backoff of
  -- one second: it runs, and nothing asks it to stop.
  abbrev pub IsStarted : StreamContext F → Type 0
  IsStarted ctx =
      (ctx.running ≡ true)
      × (ctx.stop_requested ≡ false)
      × (ctx.state ≡ StreamState.starting)
      × (ctx.start_time ≡ w.now)
      × (ctx.decode_thread
          ≡ some (record { point = outer; local_frame_count = 0; backoff_sec = 1 }))

  -- No count, and no error.
  abbrev pub HasNoHistory : StreamContext F → Type 0
  HasNoHistory ctx =
      (ctx.decoded_frames ≡ 0)
      × (ctx.inferred_frames ≡ 0)
      × (ctx.reconnect_count ≡ 0)
      × (ctx.last_error ≡ "")

  -- A stream with a name that is not empty and not there is added with its configuration and the
  -- labels of its models. Its thread has been started, and nothing asks it to stop; the counts are
  -- zero, and there is no error. The other streams stay.
  pub add_stream-find :
      (c : StreamConfig F) (m : StreamManager F)
      → c.cam_id ≢ ""
      → find_stream c.cam_id m ≡ none
      → ((add_stream dev w c m).1 ≡ true)
        × ((ctx : StreamContext F) × (find_stream c.cam_id (add_stream dev w c m).0 ≡ some ctx)
            × (ctx.config ≡ c)
            × (ctx.labels_cache ≡ load_labels w.files c.models [])
            × (ctx.encoder_valid ≡ w.encoder_valid)
            × IsStarted ctx
            × HasNoHistory ctx)
        × Others c.cam_id (add_stream dev w c m).0 m
  unfolding find_stream launch new_context
  add_stream-find c m n new = rw (add_stream-new dev w "" m c n new) (
    refl,
    (
      launch w (new_context w c),
      find-save c.cam_id (added dev w "" m c)
          ∙ find-insert_self String_discrete c.cam_id (launch w (new_context w c)) m.streams,
      refl,
      refl,
      refl,
      (refl, refl, refl, refl, refl),
      (refl, refl, refl, refl),
    ),
    λ other ne.
        find-save other (added dev w "" m c)
        ∙ find-insert_ne String_discrete c.cam_id other (launch w (new_context w c)) m.streams ne,
  )

  -- What is found of the stream that was added.
  pub add_stream-launched :
      (c : StreamConfig F) (m : StreamManager F)
      → c.cam_id ≢ ""
      → find_stream c.cam_id m ≡ none
      → ((add_stream dev w c m).1 ≡ true)
        × (find_stream c.cam_id (add_stream dev w c m).0 ≡ some (launch w (new_context w c)))
  unfolding find_stream
  add_stream-launched c m n new = rw (add_stream-new dev w "" m c n new) (
    refl,
    find-save c.cam_id (added dev w "" m c)
        ∙ find-insert_self String_discrete c.cam_id (launch w (new_context w c)) m.streams,
  )

  pub has_stream-none :
      (cam : String) (m : StreamManager F) → find_stream cam m ≡ none → has_stream cam m ≡ false
  unfolding has_stream find_stream
  has_stream-none cam m e = contains-none String_discrete cam m.streams e

  pub has_stream-some :
      (cam : String) (m : StreamManager F) (ctx : StreamContext F)
      → find_stream cam m ≡ some ctx
      → has_stream cam m ≡ true
  unfolding has_stream find_stream
  has_stream-some cam m ctx e = contains-some String_discrete cam m.streams e

  -- The call says whether the stream was there; a removed stream is gone, and the others stay.
  pub remove_stream-find :
      (cam : String) (m : StreamManager F)
      → IsManaged m
      → ((remove_stream dev w cam m).1 ≡ has_stream cam m)
        × (find_stream cam (remove_stream dev w cam m).0 ≡ none)
        × Others cam (remove_stream dev w cam m).0 m
  unfolding find_stream
  remove_stream-find cam m h = elim (Option-cases (find_stream cam m)) [
    | inl missing ↦
        rw (remove_stream-missing dev w cam m missing)
          (sym (has_stream-none cam m missing), missing, λ other ne. refl)
    | inr (ctx, there) ↦ rw (remove_stream-there dev w cam m there) (
      sym (has_stream-some cam m ctx there),
      find-save cam (removed dev w cam m) ∙ find-erase_self String_discrete cam m.streams h.keyed,
      λ other ne.
          find-save other (removed dev w cam m)
          ∙ find-erase_ne String_discrete cam other m.streams ne,
    )
  ]

  -- A stream that is stopped is not running when the call returns, whatever its thread was doing:
  -- the thread is joined, and the stream keeps its configuration and its counts. The others stay.
  pub stop_stream-find :
      (cam : String) (ctx : StreamContext F) (m : StreamManager F)
      → IsManaged m
      → find_stream cam m ≡ some ctx
      → ((stop_stream dev w cam m).1 ≡ true)
        × ((ctx' : StreamContext F) × (find_stream cam (stop_stream dev w cam m).0 ≡ some ctx')
            × Joined dev m.config ctx' ctx)
        × Others cam (stop_stream dev w cam m).0 m
  unfolding find_stream put_stream
  stop_stream-find cam ctx m h there =
      let ctx' = join dev w m.config (stop_stream_internal ctx) in
      rw (stop_stream-there dev w cam m ctx there) (
        refl,
        (
          ctx',
          find-insert_self String_discrete cam ctx' m.streams,
          stopped-Joined dev w m.config ctx (found cam ctx m h there).1,
        ),
        λ other ne. find-insert_ne String_discrete cam other ctx' m.streams ne,
      )

  -- A stream that is not running is started with its configuration and label cache, its counts at
  -- zero and no error: its thread is a new one, whatever the last one did and although a stop had been
  -- asked for. The others stay.
  pub start_stream-find :
      (cam : String) (ctx : StreamContext F) (m : StreamManager F)
      → find_stream cam m ≡ some ctx
      → ctx.running ≡ false
      → ((start_stream dev w cam m).1 ≡ true)
        × ((ctx' : StreamContext F) × (find_stream cam (start_stream dev w cam m).0 ≡ some ctx')
            × (ctx'.config ≡ ctx.config)
            × (ctx'.labels_cache ≡ ctx.labels_cache)
            × IsStarted ctx'
            × HasNoHistory ctx')
        × Others cam (start_stream dev w cam m).0 m
  unfolding find_stream put_stream reset_statistics launch
  start_stream-find cam ctx m there rests =
      let kept = join-Kept dev m.config w ctx in
      let ctx' = launch w (reset_statistics (join dev w m.config ctx)) in
      rw (start_stream-rests dev w cam m ctx there rests) (
        refl,
        (
          ctx',
          find-insert_self String_discrete cam ctx' m.streams,
          kept.0,
          kept.1,
          (refl, refl, refl, refl, refl),
          (refl, refl, refl, refl),
        ),
        λ other ne. find-insert_ne String_discrete cam other ctx' m.streams ne,
      )
