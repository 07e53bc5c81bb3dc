-- ===== src/StreamManager/Manager/Branches.antt =====
-- What each operation of the stream manager comes to on each of its branches.
use infer_server.Base.{
  ◌≡◌, ◌≢◌, refl, ◌∙◌, true, false, String, [], ◌++◌, none, some, if◌then◌else◌, if_pos, if_neg,
  String_discrete,
}
use infer_server.Base.Dict.{insert, erase}
use infer_server.Types.{StreamConfig}
use infer_server.ImageCache
use infer_server.StreamManager.{StreamContext, Devices}
use infer_server.StreamManager.Decoding.{thread_step}
use infer_server.StreamManager.Manager.{
  StreamManager, World, join, stop_stream_internal, add_stream, remove_stream, start_stream,
  stop_stream, decode_in, save_configs, launch, new_context, find_stream, put_stream,
  reset_statistics,
}

module _ {F : Type 0} (dev : Devices) (w : World) (cam : String) (m : StreamManager F) where
  -- The manager with a new stream, before it is saved.
  abbrev pub added : StreamConfig F → StreamManager F
  added c = record m {
    streams = insert String_discrete c.cam_id (launch w (new_context w c)) m.streams;
    cache = if dev.has_cache then ImageCache.add_stream c.cam_id m.cache else m.cache;
    loaded = if dev.has_engine then m.loaded ++ c.models else m.loaded;
  }

  abbrev pub removed : StreamManager F
  removed = record m {
    streams = erase String_discrete cam m.streams;
    cache = if dev.has_cache then ImageCache.remove_stream cam m.cache else m.cache;
  }

  pub add_stream-nameless : (c : StreamConfig F) → c.cam_id ≡ "" → add_stream dev w c m ≡ (m, false)
  unfolding add_stream
  add_stream-nameless c e = if_pos (String_discrete c.cam_id "") e _ _

  pub add_stream-known :
      (c : StreamConfig F) {ctx : StreamContext F}
      → find_stream c.cam_id m ≡ some ctx
      → add_stream dev w c m ≡ (m, false)
  unfolding add_stream
  add_stream-known c e = elim (String_discrete c.cam_id "") [
    | yes p ↦ if_pos (String_discrete c.cam_id "") p _ _
    | no n ↦ if_neg (String_discrete c.cam_id "") n _ _ ∙ rw e refl
  ]

  pub add_stream-new :
      (c : StreamConfig F)
      → c.cam_id ≢ ""
      → find_stream c.cam_id m ≡ none
      → add_stream dev w c m ≡ (save_configs w (added c), true)
  unfolding add_stream
  add_stream-new c n e = if_neg (String_discrete c.cam_id "") n _ _ ∙ rw e refl

  pub remove_stream-missing : find_stream cam m ≡ none → remove_stream dev w cam m ≡ (m, false)
  unfolding remove_stream
  remove_stream-missing e = rw (remove_stream, e) refl

  pub remove_stream-there :
      {ctx : StreamContext F}
      → find_stream cam m ≡ some ctx
      → remove_stream dev w cam m ≡ (save_configs w removed, true)
  unfolding remove_stream
  remove_stream-there e = rw (remove_stream, e) refl

  pub start_stream-missing : find_stream cam m ≡ none → start_stream dev w cam m ≡ (m, false)
  unfolding start_stream
  start_stream-missing e = rw (start_stream, e) refl

  pub start_stream-runs :
      {ctx : StreamContext F}
      → find_stream cam m ≡ some ctx
      → ctx.running ≡ true
      → start_stream dev w cam m ≡ (m, true)
  unfolding start_stream
  start_stream-runs e r = rw (start_stream, e, r) refl

  pub start_stream-rests :
      (ctx : StreamContext F)
      → find_stream cam m ≡ some ctx
      → ctx.running ≡ false
      → start_stream dev w cam m
        ≡ (put_stream cam (launch w (reset_statistics (join dev w m.config ctx))) m, true)
  unfolding start_stream
  start_stream-rests ctx e r = rw (start_stream, e, r) refl

  pub stop_stream-missing : find_stream cam m ≡ none → stop_stream dev w cam m ≡ (m, false)
  unfolding stop_stream
  stop_stream-missing e = rw (stop_stream, e) refl

  pub stop_stream-there :
      (ctx : StreamContext F)
      → find_stream cam m ≡ some ctx
      → stop_stream dev w cam m
        ≡ (put_stream cam (join dev w m.config (stop_stream_internal ctx)) m, true)
  unfolding stop_stream
  stop_stream-there ctx e = rw (stop_stream, e) refl

  pub decode_in-missing : find_stream cam m ≡ none → decode_in dev w cam m ≡ (m, [])
  unfolding decode_in
  decode_in-missing e = rw (decode_in, e) refl

  pub decode_in-there :
      (ctx : StreamContext F)
      → find_stream cam m ≡ some ctx
      → (decode_in dev w cam m).0 ≡ put_stream cam (thread_step dev m.config w.answers ctx).0 m
  unfolding decode_in
  decode_in-there ctx e = rw (decode_in, e) refl
