-- ===== src/StreamManager/Decoding/Skipping.antt =====
-- Which of the frames that are read go on to inference and to the cache.
use native.Mathlib.Nat.{suc-mul, suc-mod, mod-lt, mod_self, mod-eq_of_lt}
use infer_server.Base.{
  ℕ, suc, ◌+◌, ◌*◌, ◌%◌, ◌<◌, ◌≡◌, refl, ap, ◌∙◌, ◌⊎◌, inl, inr, dec_lt, true, false, List, [], ◌∷◌,
  ◌++◌, Option, none, some, arith, Bool-cases, Option-cases, map, length, leb, ltb, ◌==◌, ◌||◌,
  if◌then◌else◌,
}
use infer_server.Base.Int.{ℤ, pos}
use infer_server.Base.Word.{add64, word}
use infer_server.Types.{ModelConfig, DecodedFrame, ServerConfig}
use infer_server.StreamManager.{StreamContext, Answers, Devices, Output, inner}
use infer_server.StreamManager.Frame.{
  usable, rgb_of, labels_of, tasks_of, task_of, infer_frame, cache_frame, base_result,
}
use infer_server.StreamManager.Decoding.{
  need_process, read_frame, decode_step, thread_step, run_thread, count_frame,
}

-- The frames that are handled, with their numbers, if those before are numbered up to `count`.
unfoldable pub every : ℕ → ℕ → List DecodedFrame → List (ℕ × DecodedFrame)
every skip count [] = []
every skip count (f ∷ fs) =
    if leb skip 1 || (suc count % skip == 0)
    then (suc count, f) ∷ every skip (suc count) fs
    else every skip (suc count) fs

-- The next number is a multiple of `skip`, or it is not and its remainder grows.
next_mod :
    (skip count : ℕ)
    → 0 < skip
    → ((suc count % skip ≡ 0) × (suc (count % skip) ≡ skip))
      ⊎ ((suc count % skip ≡ suc (count % skip)) × (1 < skip))
next_mod skip count h = elim (dec_lt (suc (count % skip)) skip) [
  | yes less ↦ inr (suc-mod count skip ∙ mod-eq_of_lt less, omega (arith, less))
  | no not_less ↦
      let full : suc (count % skip) ≡ skip = omega (arith, mod-lt count h, not_less) in
      inl (suc-mod count skip ∙ ap (λ n. n % skip) full ∙ mod_self skip, full)
]

-- With `skip` rounds from one handled frame to the next.
pub length-every :
    (skip count : ℕ) (fs : List DecodedFrame)
    → 0 < skip
    → length (every skip count fs) * skip + (count + length fs) % skip ≡ length fs + count % skip
unfolding every
length-every skip count [] h = rw (plus_none count) (omega arith)
  where
    plus_none : (n : ℕ) → n + 0 ≡ n
    plus_none n = omega arith
length-every skip count (f ∷ fs) h =
    let rest = length-every skip (suc count) fs h in
    let shift : count + suc (length fs) ≡ suc count + length fs = omega arith in
    elim (next_mod skip count h) [
      | inl (hits, full) ↦
          rw (shift, handled hits)
            (omega (arith, rest, suc-mul (length (every skip (suc count) fs)) skip, hits, full))
      | inr (misses, several) ↦ rw (shift, passed misses several) (omega (arith, rest, misses))
    ]
  where
    handled : suc count % skip ≡ 0 → (leb skip 1 || (suc count % skip == 0)) ≡ true
    handled e = ground (arith, e)

    passed :
        suc count % skip ≡ suc (count % skip)
        → 1 < skip
        → (leb skip 1 || (suc count % skip == 0)) ≡ false
    passed e k = ground (arith, e, k)

need_process-every :
    (skip count : ℕ) → need_process (pos skip) count ≡ (leb skip 1 || (count % skip == 0))
unfolding need_process
need_process-every skip count = refl

next : (a n : ℕ) → a + suc n < word → add64 a 1 ≡ suc a
unfolding add64
next a n h = omega arith

more : (d n : ℕ) → suc d + n ≡ d + suc n
more d n = omega arith

-- The decoder reads a frame, skipped or not.
abbrev pub reads : DecodedFrame → Answers
reads f = record { open_size = none; skipped = true; frame = some f }

module _ {F : Type 0} (dev : Devices) (server : ServerConfig) (skip : ℕ) (orig_w orig_h : ℤ) where
  -- What one handled frame becomes.
  abbrev pub outputs_of : StreamContext F → ℕ × DecodedFrame → List (Output F)
  outputs_of ctx e =
      infer_frame dev orig_w orig_h ctx e.1 e.0 ++ cache_frame dev orig_w orig_h ctx e.1 server

  abbrev pub outputs_of_all : StreamContext F → List (ℕ × DecodedFrame) → List (Output F)
  outputs_of_all ctx [] = []
  outputs_of_all ctx (e ∷ es) = outputs_of ctx e ++ outputs_of_all ctx es

  -- A stream whose thread is in its decoding loop and that was not told to stop.
  abbrev pub decoding : ℕ → ℕ → StreamContext F → StreamContext F
  decoding count backoff ctx = record ctx {
    decode_thread = some (record {
      point = inner (pos skip) orig_w orig_h;
      local_frame_count = count;
      backoff_sec = backoff;
    });
    stop_requested = false;
  }

  abbrev pub counted : ℕ → StreamContext F → StreamContext F
  counted d ctx = record ctx { decoded_frames = d }

  -- What a frame becomes is no matter of the thread and of the counts.
  tasks_of-decoding :
      (count backoff d : ℕ) (ctx : StreamContext F) (f : DecodedFrame) (a : Option ℕ)
      (models : List (ModelConfig F))
      → tasks_of dev orig_w orig_h (decoding count backoff (counted d ctx)) f a models
        ≡ tasks_of dev orig_w orig_h ctx f a models
  unfolding tasks_of task_of rgb_of labels_of
  tasks_of-decoding count backoff d ctx f a [] = refl
  tasks_of-decoding count backoff d ctx f a (mc ∷ models) =
      let rest = tasks_of-decoding count backoff d ctx f a models in
      elim (Option-cases (
        usable (dev.nv12_to_rgb_resize f.nv12_data orig_w orig_h mc.input_width mc.input_height))) [
          | inl fails ↦ rw (tasks_of, rgb_of, fails) rest
          | inr (rgb, works) ↦
              rw (tasks_of, rgb_of, works)
                (ap (◌∷◌ (task_of dev orig_w orig_h ctx f a mc rgb)) rest)
        ]

  step_reads :
      (f : DecodedFrame) (count backoff : ℕ) (ctx : StreamContext F)
      → thread_step dev server (reads f) (decoding count backoff ctx) ≡ (
        decoding (add64 count 1) backoff (count_frame ctx),
        if need_process (pos skip) (add64 count 1)
            then outputs_of (decoding count backoff ctx) (add64 count 1, f)
            else [],
      )
  unfolding thread_step decode_step read_frame count_frame
  step_reads f count backoff ctx = elim (Bool-cases (need_process (pos skip) (add64 count 1))) [
    | inl handled ↦ rw handled refl
    | inr passed ↦ rw passed refl
  ]

  outputs_of-decoding :
      (count backoff d : ℕ) (ctx : StreamContext F) (e : ℕ × DecodedFrame)
      → outputs_of (decoding count backoff (counted d ctx)) e ≡ outputs_of ctx e
  unfolding infer_frame cache_frame base_result
  outputs_of-decoding count backoff d ctx e =
      let aggregator = if ltb 1 (length ctx.config.models) then some e.0 else none in
      rw (infer_frame, tasks_of-decoding count backoff d ctx e.1 aggregator ctx.config.models) refl

  step_every :
      (f : DecodedFrame) (n count backoff d : ℕ) (ctx : StreamContext F)
      → count + suc n < word
      → d + suc n < word
      → thread_step dev server (reads f) (decoding count backoff (counted d ctx)) ≡ (
        decoding (suc count) backoff (counted (suc d) ctx),
        if leb skip 1 || (suc count % skip == 0) then outputs_of ctx (suc count, f) else [],
      )
  unfolding count_frame
  step_every f n count backoff d ctx c k =
      step_reads f count backoff (counted d ctx)
      ∙ rw (next count n c, next d n k, need_process-every skip (suc count))
          (ap
            (λ out. (
              decoding (suc count) backoff (counted (suc d) ctx),
              if leb skip 1 || (suc count % skip == 0) then out else [],
            ))
            (outputs_of-decoding count backoff d ctx (suc count, f)))

  run_reads :
      (fs : List DecodedFrame) (count backoff d : ℕ) (ctx : StreamContext F)
      → count + length fs < word
      → d + length fs < word
      → ((run_thread dev server (map reads fs) (decoding count backoff (counted d ctx))).1
          ≡ outputs_of_all ctx (every skip count fs))
        × ((run_thread dev server
              (map reads fs)
              (decoding count backoff (counted d ctx))).0.decoded_frames
            ≡ d + length fs)
  unfolding run_thread every
  run_reads [] count backoff d ctx c k = (refl, omega arith)
  run_reads (f ∷ fs) count backoff d ctx c k =
      let (outs, sum) =
        run_reads fs (suc count) backoff (suc d) ctx (omega (arith, c)) (omega (arith, k)) in
      let one = step_every f (length fs) count backoff d ctx c k in
      let after : StreamContext F × List (Output F) → ℕ =
        λ r. (run_thread dev server (map reads fs) r.0).0.decoded_frames in
      let total = ap after one ∙ sum ∙ more d (length fs) in
      elim (Bool-cases (leb skip 1 || (suc count % skip == 0))) [
        | inl handled ↦
            (rw (one, handled) (ap (λ out. outputs_of ctx (suc count, f) ++ out) outs), total)
        | inr passed ↦ (rw (one, passed) outs, total)
      ]

  -- While the connection lasts and no stop is asked for, every frame that is read is counted, and
  -- what is handed on is what the handled frames become, in their order: one frame out of `skip`,
  -- those whose number is a multiple of it. The counters stay below 2^64.
  pub run_thread-reads :
      (fs : List DecodedFrame) (count backoff d : ℕ) (ctx : StreamContext F)
      → 0 < skip
      → count + length fs < word
      → d + length fs < word
      → ((run_thread dev server (map reads fs) (decoding count backoff (counted d ctx))).1
          ≡ outputs_of_all ctx (every skip count fs))
        × ((run_thread dev server
              (map reads fs)
              (decoding count backoff (counted d ctx))).0.decoded_frames
            ≡ d + length fs)
        × (length (every skip count fs) * skip + (count + length fs) % skip
            ≡ length fs + count % skip)
  run_thread-reads fs count backoff d ctx h c k =
      let (outs, sum) = run_reads fs count backoff d ctx c k in
      (outs, sum, length-every skip count fs h)
