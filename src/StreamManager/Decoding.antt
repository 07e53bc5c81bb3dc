-- ===== src/StreamManager/Decoding.antt =====
-- `decode_thread_func` of src/stream/stream_manager.cpp, a step at a time. A step goes from one test
-- of `stop_requested` to the next, so that other threads' calls fall between steps.
pub mod Stopping
pub mod Skipping
use infer_server.Base.{
  ℕ, zero, suc, ◌+◌, ◌-◌, ◌*◌, ◌%◌, ◌^◌, String, Bool, true, false, List, [], ◌∷◌, ◌++◌, Option,
  none, some, leb, ltb, ◌==◌, ◌||◌, if◌then◌else◌,
}
use infer_server.Base.Int.{ℤ, pos, negsuc}
use infer_server.Base.Word.{add64}
use infer_server.Types.{StreamState, StreamConfig, DecodedFrame, ServerConfig}
use infer_server.StreamManager.{
  Point, DecodeThread, StreamContext, Answers, Devices, Output, outer, inner, behind, waiting,
  ended,
}
use infer_server.StreamManager.Frame.{infer_frame, cache_frame}

-- `std::min(backoff_sec * 2, max_backoff_sec)`
unfoldable pub next_backoff : ℕ → ℕ
next_backoff b = if ltb 8 (b * 2) then 8 else b * 2

-- `skip <= 1 || local_frame_count % skip == 0`
unfoldable pub need_process : ℤ → ℕ → Bool
need_process (pos skip) count = leb skip 1 || (count % skip == 0)
need_process (negsuc n) count = true

module _ {F : Type 0} where
  -- `reconnect_count` is a 32-bit counter.
  unfoldable pub reconnecting : String → StreamContext F → StreamContext F
  reconnecting message ctx = record ctx {
    last_error = message;
    state = StreamState.reconnecting;
    reconnect_count = (ctx.reconnect_count + 1) % 2 ^ 32;
  }

  unfoldable pub count_frame : StreamContext F → StreamContext F
  unfolding add64
  count_frame ctx = record ctx { decoded_frames = add64 ctx.decoded_frames 1 }

  abbrev pub at : DecodeThread → Point → StreamContext F → StreamContext F
  at t p ctx = record ctx { decode_thread = some (record t { point = p }) }

  module _ (dev : Devices) (server : ServerConfig) where
    -- One round at the head of the outer loop. The state `Starting`, which the code sets before the
    -- decoder opens, is replaced within the step.
    unfoldable pub open_step :
        Answers → DecodeThread → StreamContext F → StreamContext F × List (Output F)
    unfolding reconnecting
    open_step answers t ctx =
        if ctx.stop_requested
        then (at t ended (record ctx { state = StreamState.stopped; running = false }), [])
        else elim answers.open_size [
          | none ↦ (
            at t (waiting (t.backoff_sec * 10)) (reconnecting "Failed to open RTSP stream" ctx),
            [],
          )
          | some (orig_w, orig_h) ↦ (
            at (record t { backoff_sec = 1 }) (inner ctx.config.frame_skip orig_w orig_h)
                (record ctx { state = StreamState.running; last_error = "" }),
            [],
          )
        ]

    -- What a round of the inner loop gets from the decoder: nothing if it fails, else the outputs.
    unfoldable pub read_frame : Answers → ℤ → ℤ → ℤ → ℕ → StreamContext F → Option (List (Output F))
    unfolding need_process infer_frame cache_frame
    read_frame answers skip orig_w orig_h count ctx =
        if need_process skip count
        then elim answers.frame [
          | none ↦ none
          | some frame ↦ some (
              infer_frame dev orig_w orig_h ctx frame count
              ++ cache_frame dev orig_w orig_h ctx frame server)
        ]
        else if answers.skipped
        then some []
        else none

    -- One round of the inner loop.
    unfoldable pub decode_step :
        Answers → DecodeThread → ℤ → ℤ → ℤ → StreamContext F → StreamContext F × List (Output F)
    unfolding read_frame reconnecting count_frame
    decode_step answers t skip orig_w orig_h ctx =
        let count = add64 t.local_frame_count 1 in
        let t' = record t { local_frame_count = count } in
        if ctx.stop_requested
        then (at t behind ctx, [])
        else elim (read_frame answers skip orig_w orig_h count ctx) [
          | none ↦ (at t' behind (reconnecting "Decode failed or stream ended" ctx), [])
          | some outputs ↦ (at t' (inner skip orig_w orig_h) (count_frame ctx), outputs)
        ]

    -- A tenth of a second of the wait, or its end.
    unfoldable pub wait_step : DecodeThread → ℕ → StreamContext F → StreamContext F
    unfolding next_backoff
    wait_step t rounds ctx =
        let over = at (record t { backoff_sec = next_backoff t.backoff_sec }) outer ctx in
        elim rounds [
          | zero ↦ over
          | suc n ↦ if ctx.stop_requested then over else at t (waiting n) ctx
        ]

    unfoldable pub thread_step : Answers → StreamContext F → StreamContext F × List (Output F)
    unfolding open_step decode_step wait_step
    thread_step answers ctx = elim ctx.decode_thread [
      | none ↦ (ctx, [])
      | some t ↦ elim t.point [
        | outer ↦ open_step answers t ctx
        | inner skip orig_w orig_h ↦ decode_step answers t skip orig_w orig_h ctx
        | behind ↦
            if ctx.stop_requested
            then (at t outer ctx, [])
            else (at t (waiting (t.backoff_sec * 10)) ctx, [])
        | waiting rounds ↦ (wait_step t rounds ctx, [])
        | ended ↦ (ctx, [])
      ]
    ]

    -- The thread alone, with the decoder's answers in order, and all that it hands on.
    unfoldable pub run_thread : List Answers → StreamContext F → StreamContext F × List (Output F)
    unfolding thread_step
    run_thread [] ctx = (ctx, [])
    run_thread (a ∷ rest_answers) ctx =
        let one = thread_step a ctx in
        let rest = run_thread rest_answers one.0 in (rest.0, one.1 ++ rest.1)
