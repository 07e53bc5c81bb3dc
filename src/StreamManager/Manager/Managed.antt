-- ===== src/StreamManager/Manager/Managed.antt =====
-- What it is for a manager to keep every stream under its own name with a sound thread.
use infer_server.Base.{
  ◌≡◌, refl, ap, ◌∙◌, ◌⊎◌, inl, inr, true, false, String, some, Bool-cases, String_discrete,
}
use infer_server.Base.Dict.{IsKeyed, insert-IsKeyed, Entries, find-Entries, insert-Entries}
use infer_server.Types.{StreamConfig, ServerConfig}
use infer_server.StreamManager.{StreamContext, Devices}
use infer_server.StreamManager.Decoding.Stopping.{IsSound}
use infer_server.StreamManager.Manager.{
  StreamManager, World, join, stop_stream_internal, save_configs, launch, find_stream, put_stream,
}
use infer_server.StreamManager.Manager.Joining.{Kept, Joined, join-Joined}

module _ {F : Type 0} where
  abbrev pub OfStream : String → StreamContext F → Type 0
  OfStream cam ctx = (ctx.config.cam_id ≡ cam) × IsSound ctx

  pub record IsManaged (m : StreamManager F) : Type 0 where
    pub keyed : IsKeyed String_discrete m.streams
    pub each : Entries OfStream m.streams

  pub put_stream-IsManaged :
      (cam : String) (ctx : StreamContext F) (m : StreamManager F)
      → IsManaged m
      → OfStream cam ctx
      → IsManaged (put_stream cam ctx m)
  unfolding put_stream
  put_stream-IsManaged cam ctx m h o = record {
    keyed = insert-IsKeyed String_discrete cam ctx m.streams h.keyed;
    each = insert-Entries String_discrete OfStream cam ctx m.streams h.each o;
  }

  pub save_configs-IsManaged :
      (w : World) (m : StreamManager F) → IsManaged m → IsManaged (save_configs w m)
  unfolding save_configs
  save_configs-IsManaged w m h = elim (Bool-cases w.saves) [
    | inl e ↦ rw e (record { keyed = h.keyed; each = h.each })
    | inr e ↦ rw e h
  ]

  launch-IsSound : (w : World) (ctx : StreamContext F) → IsSound (launch w ctx)
  unfolding launch
  launch-IsSound w ctx = (refl, inl refl)

  pub found :
      (cam : String) (ctx : StreamContext F) (m : StreamManager F)
      → IsManaged m
      → find_stream cam m ≡ some ctx
      → OfStream cam ctx
  unfolding find_stream
  found cam ctx m h e = find-Entries String_discrete OfStream cam m.streams h.each e

  pub named : {c c' : StreamConfig F} (cam : String) → c' ≡ c → c.cam_id ≡ cam → c'.cam_id ≡ cam
  named cam e n = ap (λ (c : StreamConfig F). c.cam_id) e ∙ n

  module _ (dev : Devices) where
    abbrev pub Stopping : StreamContext F → StreamContext F → Type 0
    Stopping ctx' ctx =
        IsSound ctx'
        × ((ctx'.stop_requested ≡ true) ⊎ (ctx'.running ≡ false))
        × Kept dev ctx' ctx
        × (ctx'.decoded_frames ≡ ctx.decoded_frames)

    -- What `stop_stream_internal` leaves is told to stop, or not running.
    pub stopping : (ctx : StreamContext F) → IsSound ctx → Stopping (stop_stream_internal ctx) ctx
    unfolding stop_stream_internal
    stopping ctx h = elim (Bool-cases ctx.running) [
      | inl runs ↦ rw runs (rw runs at h, inl refl, (refl, refl, refl), refl)
      | inr rests ↦ rw rests (rw rests at h, inr refl, (refl, refl, refl), refl)
    ]

    -- Stopped and joined: not running, no thread, the rest as before.
    pub stopped-Joined :
        (w : World) (server : ServerConfig) (ctx : StreamContext F)
        → IsSound ctx
        → Joined dev server (join dev w server (stop_stream_internal ctx)) ctx
    stopped-Joined w server ctx h =
        let (sound, stop, kept, count) = stopping ctx h in
        let (rests, none_left, kept', count') =
          join-Joined dev server w (stop_stream_internal ctx) sound stop in
        (rests, none_left, (kept'.0 ∙ kept.0, kept'.1 ∙ kept.1, kept'.2 ∙ kept.2), count' ∙ count)

    pub Joined-IsSound :
        (server : ServerConfig) (ctx' ctx : StreamContext F)
        → Joined dev server ctx' ctx
        → IsSound ctx'
    Joined-IsSound server ctx' ctx j = rw j.1 j.0

    pub stopped-OfStream :
        (w : World) (server : ServerConfig) (cam : String) (ctx : StreamContext F)
        → OfStream cam ctx
        → OfStream cam (join dev w server (stop_stream_internal ctx))
    stopped-OfStream w server cam ctx o =
        let joined = stopped-Joined w server ctx o.1 in
        (
          named cam joined.2.0 o.0,
          Joined-IsSound server (join dev w server (stop_stream_internal ctx)) ctx joined,
        )
