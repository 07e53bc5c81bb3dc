-- ===== src/StreamManager/Manager/Joining.antt =====
-- What a thread's steps and a `join` keep of a stream.
use infer_server.Base.{
  zero, suc, ◌≡◌, refl, ap, sym, ◌∙◌, ◌⊎◌, inl, inr, Bool, true, false, List, [], ◌∷◌, none, some,
  Option-cases, Bool-cases,
}
use infer_server.Base.Int.{ℤ}
use infer_server.Base.Word.{add64}
use infer_server.Types.{StreamState, ServerConfig}
use infer_server.StreamManager.{
  Point, DecodeThread, StreamContext, Answers, Devices, Output, outer, inner, behind, waiting,
  ended,
}
use infer_server.StreamManager.Decoding.{
  reconnecting, count_frame, open_step, read_frame, decode_step, wait_step, thread_step, run_thread,
}
use infer_server.StreamManager.Decoding.Stopping.{IsSound, PointSound, Backoff, run_thread-stop}
use infer_server.StreamManager.Manager.{World, join}

running_not : true ≡ false → ⊥
running_not h = cc

-- A stream that is not running, with a thread, has a thread that has ended.
ended_of :
    (p : Point) (running : Bool) (state : StreamState)
    → PointSound p running state
    → running ≡ false
    → p ≡ ended
ended_of outer running state h e = cc
ended_of (inner skip w k) running state h e = absurd (running_not (sym h.0 ∙ e))
ended_of behind running state h e = cc
ended_of (waiting n) running state h e = absurd (running_not (sym h.0 ∙ e))
ended_of ended running state h e = refl

module _ {F : Type 0} (dev : Devices) where
  -- The same configuration and label cache, and the same count of results.
  abbrev pub Kept : StreamContext F → StreamContext F → Type 0
  Kept ctx' ctx =
      (ctx'.config ≡ ctx.config)
      × (ctx'.labels_cache ≡ ctx.labels_cache)
      × (ctx'.inferred_frames ≡ ctx.inferred_frames)

  module _ (server : ServerConfig) where
    decode_step-Kept :
        (a : Answers) (t : DecodeThread) (skip w k : ℤ) (ctx : StreamContext F)
        → Kept (decode_step dev server a t skip w k ctx).0 ctx
    unfolding decode_step reconnecting count_frame
    decode_step-Kept a t skip w k ctx = elim (Bool-cases ctx.stop_requested) [
      | inl stop ↦ rw stop (refl, refl, refl)
      | inr on ↦
          elim (Option-cases (read_frame dev server a skip w k (add64 t.local_frame_count 1) ctx)) [
            | inl fails ↦ rw (on, fails) (refl, refl, refl)
            | inr (outputs, reads) ↦ rw (on, reads) (refl, refl, refl)
          ]
    ]

    point_step-Kept :
        (a : Answers) (t : DecodeThread) (p : Point) (ctx : StreamContext F)
        → ctx.decode_thread ≡ some t
        → t.point ≡ p
        → Kept (thread_step dev server a ctx).0 ctx
    unfolding thread_step open_step decode_step wait_step reconnecting count_frame
    point_step-Kept a t outer ctx e p = elim (Bool-cases ctx.stop_requested) [
      | inl stop ↦ rw (e, p, stop) (refl, refl, refl)
      | inr on ↦ elim (Option-cases a.open_size) [
        | inl fails ↦ rw (e, p, on, fails) (refl, refl, refl)
        | inr (size, opens) ↦ rw (e, p, on, opens) (refl, refl, refl)
      ]
    ]
    point_step-Kept a t (inner skip w k) ctx e p = rw (e, p) (decode_step-Kept a t skip w k ctx)
    point_step-Kept a t behind ctx e p = elim (Bool-cases ctx.stop_requested) [
      | inl stop ↦ rw (e, p, stop) (refl, refl, refl)
      | inr on ↦ rw (e, p, on) (refl, refl, refl)
    ]
    point_step-Kept a t (waiting zero) ctx e p = rw (e, p) (refl, refl, refl)
    point_step-Kept a t (waiting (suc n)) ctx e p = elim (Bool-cases ctx.stop_requested) [
      | inl stop ↦ rw (e, p, stop) (refl, refl, refl)
      | inr on ↦ rw (e, p, on) (refl, refl, refl)
    ]
    point_step-Kept a t ended ctx e p = rw (e, p) (refl, refl, refl)

    pub thread_step-Kept :
        (a : Answers) (ctx : StreamContext F) → Kept (thread_step dev server a ctx).0 ctx
    unfolding thread_step
    thread_step-Kept a ctx = elim (Option-cases ctx.decode_thread) [
      | inl e ↦ rw e (refl, refl, refl)
      | inr (t, e) ↦ point_step-Kept a t t.point ctx e refl
    ]

    -- A thread that was told to stop, or has ended, is joined: the stream is not running, and what
    -- it counted and is configured to do is as before.
    abbrev pub Joined : StreamContext F → StreamContext F → Type 0
    Joined ctx' ctx =
        (ctx'.running ≡ false)
        × (ctx'.decode_thread ≡ none)
        × Kept ctx' ctx
        × (ctx'.decoded_frames ≡ ctx.decoded_frames)

    join-some :
        (w : World) (ctx : StreamContext F) (t : DecodeThread)
        → ctx.decode_thread ≡ some t
        → join dev w server ctx
          ≡ record (run_thread dev server (w.answers ∷ w.answers ∷ w.answers ∷ []) ctx).0 {
            decode_thread = none;
          }
    unfolding join
    join-some w ctx t e = rw e refl

    run_thread-ended :
        (a b c : Answers) (ctx : StreamContext F) (t : DecodeThread)
        → ctx.decode_thread ≡ some t
        → t.point ≡ ended
        → run_thread dev server (a ∷ b ∷ c ∷ []) ctx ≡ (ctx, [])
    unfolding run_thread thread_step
    run_thread-ended a b c ctx t e p = rw (e, p) refl

    join-ended :
        (w : World) (ctx : StreamContext F) (t : DecodeThread)
        → ctx.decode_thread ≡ some t
        → t.point ≡ ended
        → join dev w server ctx ≡ record ctx { decode_thread = none }
    join-ended w ctx t e p =
        join-some w ctx t e
        ∙ ap (λ (r : StreamContext F × List (Output F)). record (r.0) { decode_thread = none })
            (run_thread-ended w.answers w.answers w.answers ctx t e p)

    pub join-Joined :
        (w : World) (ctx : StreamContext F)
        → IsSound ctx
        → (ctx.stop_requested ≡ true) ⊎ (ctx.running ≡ false)
        → Joined (join dev w server ctx) ctx
    unfolding join
    join-Joined w ctx h stop = elim (Option-cases ctx.decode_thread) [
      | inl e ↦ rw e (rw e at h, refl, (refl, refl, refl), refl)
      | inr (t, e) ↦ elim stop [
        | inl stopped ↦
            let halted =
              run_thread-stop dev server w.answers w.answers w.answers t ctx h e stopped in
            rw (join-some w ctx t e, ap (λ r. r.0) halted.1) (refl, refl, (refl, refl, refl), refl)
        | inr rests ↦
            let (p, b) : PointSound t.point ctx.running ctx.state × Backoff t.backoff_sec =
              rw e at h in
            rw (join-ended w ctx t e (ended_of t.point ctx.running ctx.state p rests))
              (rests, refl, (refl, refl, refl), refl)
      ]
    ]

    run_thread-Kept :
        (answers : List Answers) (ctx : StreamContext F)
        → Kept (run_thread dev server answers ctx).0 ctx
    unfolding run_thread
    run_thread-Kept [] ctx = (refl, refl, refl)
    run_thread-Kept (a ∷ rest) ctx =
        let next = thread_step dev server a ctx in
        let later = run_thread-Kept rest next.0 in
        let here = thread_step-Kept a ctx in (later.0 ∙ here.0, later.1 ∙ here.1, later.2 ∙ here.2)

    pub join-Kept : (w : World) (ctx : StreamContext F) → Kept (join dev w server ctx) ctx
    unfolding join
    join-Kept w ctx = elim (Option-cases ctx.decode_thread) [
      | inl e ↦ rw e (refl, refl, refl)
      | inr (t, e) ↦
          rw (join-some w ctx t e) (run_thread-Kept (w.answers ∷ w.answers ∷ w.answers ∷ []) ctx)
    ]
