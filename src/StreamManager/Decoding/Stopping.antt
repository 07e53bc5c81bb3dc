-- ===== src/StreamManager/Decoding/Stopping.antt =====
-- What holds of a decode thread between its steps, and that a stop request ends it.
use infer_server.Base.{
  ℕ, zero, suc, ◌*◌, ◌≤◌, ◌≡◌, refl, ◌⊎◌, inl, inr, Bool, true, false, [], ◌∷◌, Option, none, some,
  arith, Option-cases, Bool-cases,
}
use infer_server.Base.Int.{ℤ}
use infer_server.Base.Word.{add64}
use infer_server.Types.{StreamState, ServerConfig}
use infer_server.StreamManager.{
  Point, DecodeThread, StreamContext, Answers, Devices, outer, inner, behind, waiting, ended,
}
use infer_server.StreamManager.Decoding.{
  next_backoff, reconnecting, count_frame, open_step, read_frame, decode_step, wait_step,
  thread_step, run_thread,
}

-- One, two, four or eight seconds.
abbrev pub Backoff : ℕ → Type 0
Backoff b = (b ≡ 1) ⊎ (b ≡ 2) ⊎ (b ≡ 4) ⊎ (b ≡ 8)

-- While it runs the stream is marked so; in the decoding loop its state is `running`; at its end it
-- is marked as not running, in state `stopped`. No wait takes more than eight seconds.
abbrev pub PointSound : Point → Bool → StreamState → Type 0
PointSound outer running state = running ≡ true
PointSound (inner skip w h) running state = (running ≡ true) × (state ≡ StreamState.running)
PointSound behind running state = running ≡ true
PointSound (waiting rounds) running state = (running ≡ true) × (rounds ≤ 80)
PointSound ended running state = (running ≡ false) × (state ≡ StreamState.stopped)

abbrev pub ThreadSound : Option DecodeThread → Bool → StreamState → Type 0
ThreadSound none running state = running ≡ false
ThreadSound (some t) running state = PointSound t.point running state × Backoff t.backoff_sec

next_backoff-Backoff : (b : ℕ) → Backoff b → Backoff (next_backoff b)
unfolding next_backoff
next_backoff-Backoff b (inl e) = rw e (inr (inl refl))
next_backoff-Backoff b (inr (inl e)) = rw e (inr (inr (inl refl)))
next_backoff-Backoff b (inr (inr (inl e))) = rw e (inr (inr (inr refl)))
next_backoff-Backoff b (inr (inr (inr e))) = rw e (inr (inr (inr refl)))

Backoff-rounds : (b : ℕ) → Backoff b → b * 10 ≤ 80
Backoff-rounds b h = ground arith

module _ {F : Type 0} where
  abbrev pub IsSound : StreamContext F → Type 0
  IsSound ctx = ThreadSound ctx.decode_thread ctx.running ctx.state

  module _ (dev : Devices) (server : ServerConfig) where
    open_step-IsSound :
        (a : Answers) (t : DecodeThread) (ctx : StreamContext F)
        → ctx.running ≡ true
        → Backoff t.backoff_sec
        → IsSound (open_step dev server a t ctx).0
    unfolding open_step reconnecting
    open_step-IsSound a t ctx r b = elim (Bool-cases ctx.stop_requested) [
      | inl stop ↦ rw stop ((refl, refl), b)
      | inr on ↦ elim (Option-cases a.open_size) [
        | inl fails ↦ rw (on, fails) ((r, Backoff-rounds t.backoff_sec b), b)
        | inr (size, opens) ↦ rw (on, opens) ((r, refl), inl refl)
      ]
    ]

    decode_step-IsSound :
        (a : Answers) (t : DecodeThread) (skip w h : ℤ) (ctx : StreamContext F)
        → ctx.running ≡ true
        → ctx.state ≡ StreamState.running
        → Backoff t.backoff_sec
        → IsSound (decode_step dev server a t skip w h ctx).0
    unfolding decode_step reconnecting count_frame
    decode_step-IsSound a t skip w h ctx r s b = elim (Bool-cases ctx.stop_requested) [
      | inl stop ↦ rw stop (r, b)
      | inr on ↦
          elim (Option-cases (read_frame dev server a skip w h (add64 t.local_frame_count 1) ctx)) [
            | inl fails ↦ rw (on, fails) (r, b)
            | inr (outputs, reads) ↦ rw (on, reads) ((r, s), b)
          ]
    ]

    wait_step-IsSound :
        (t : DecodeThread) (rounds : ℕ) (ctx : StreamContext F)
        → ctx.running ≡ true
        → rounds ≤ 80
        → Backoff t.backoff_sec
        → IsSound (wait_step dev server t rounds ctx)
    unfolding wait_step
    wait_step-IsSound t zero ctx r k b = (r, next_backoff-Backoff t.backoff_sec b)
    wait_step-IsSound t (suc n) ctx r k b = elim (Bool-cases ctx.stop_requested) [
      | inl stop ↦ rw stop (r, next_backoff-Backoff t.backoff_sec b)
      | inr on ↦ rw on ((r, omega arith), b)
    ]

    -- The step at a point, with the thread written out.
    point_step-IsSound :
        (a : Answers) (t : DecodeThread) (p : Point) (ctx : StreamContext F)
        → ctx.decode_thread ≡ some t
        → t.point ≡ p
        → PointSound p ctx.running ctx.state
        → Backoff t.backoff_sec
        → IsSound (thread_step dev server a ctx).0
    unfolding thread_step
    point_step-IsSound a t outer ctx e p h b = rw (e, p) (open_step-IsSound a t ctx h b)
    point_step-IsSound a t (inner skip w k) ctx e p h b =
        rw (e, p) (decode_step-IsSound a t skip w k ctx h.0 h.1 b)
    point_step-IsSound a t behind ctx e p h b = elim (Bool-cases ctx.stop_requested) [
      | inl stop ↦ rw (e, p, stop) (h, b)
      | inr on ↦ rw (e, p, on) ((h, Backoff-rounds t.backoff_sec b), b)
    ]
    point_step-IsSound a t (waiting n) ctx e p h b = rw (e, p) (wait_step-IsSound t n ctx h.0 h.1 b)
    point_step-IsSound a t ended ctx e p h b = rw (e, p) (h, b)

    pub thread_step-IsSound :
        (a : Answers) (ctx : StreamContext F)
        → IsSound ctx
        → IsSound (thread_step dev server a ctx).0
    unfolding thread_step
    thread_step-IsSound a ctx h = elim (Option-cases ctx.decode_thread) [
      | inl e ↦ rw e (rw e at h)
      | inr (t, e) ↦
          let (p, b) : PointSound t.point ctx.running ctx.state × Backoff t.backoff_sec =
            rw e at h in
          point_step-IsSound a t t.point ctx e refl p b
    ]

    stop_point :
        (a b c : Answers) (t : DecodeThread) (p : Point) (ctx : StreamContext F)
        → ctx.decode_thread ≡ some t
        → t.point ≡ p
        → ctx.stop_requested ≡ true
        → PointSound p ctx.running ctx.state
        → (t' : DecodeThread) × (run_thread dev server (a ∷ b ∷ c ∷ []) ctx ≡ (
          record ctx {
            state = StreamState.stopped;
            running = false;
            decode_thread = some (record t' { point = ended });
          },
          [],
        ))
    unfolding run_thread thread_step open_step decode_step wait_step
    stop_point a b c t outer ctx e p stop h = (t, rw (e, p, stop) refl)
    stop_point a b c t (inner skip w k) ctx e p stop h = (t, rw (e, p, stop) refl)
    stop_point a b c t behind ctx e p stop h = (t, rw (e, p, stop) refl)
    stop_point a b c t (waiting zero) ctx e p stop h =
        (record t { backoff_sec = next_backoff t.backoff_sec }, rw (e, p, stop) refl)
    stop_point a b c t (waiting (suc n)) ctx e p stop h =
        (record t { backoff_sec = next_backoff t.backoff_sec }, rw (e, p, stop) refl)
    stop_point a b c t ended ctx e p stop h = (t, rw (e, p, h.0, h.1) refl)

    -- Three steps after a stop request the thread has ended, whatever the decoder answers: the stream
    -- is marked as stopped, nothing was handed on, and nothing else of the stream has changed.
    pub run_thread-stop :
        (a b c : Answers) (t : DecodeThread) (ctx : StreamContext F)
        → IsSound ctx
        → ctx.decode_thread ≡ some t
        → ctx.stop_requested ≡ true
        → (t' : DecodeThread) × (run_thread dev server (a ∷ b ∷ c ∷ []) ctx ≡ (
          record ctx {
            state = StreamState.stopped;
            running = false;
            decode_thread = some (record t' { point = ended });
          },
          [],
        ))
    run_thread-stop a b c t ctx h e stop =
        let (sound, backoff) : PointSound t.point ctx.running ctx.state × Backoff t.backoff_sec =
          rw e at h in
        stop_point a b c t t.point ctx e refl stop sound
