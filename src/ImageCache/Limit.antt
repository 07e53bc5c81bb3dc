-- ===== src/ImageCache/Limit.antt =====
-- The memory limit: what `evict_global_memory` stops at, and why its loop ends.
use infer_server.Base.{
  ℕ, zero, suc, ◌≤◌, ◌<◌, ◌≡◌, ◌≢◌, refl, ◌∙◌, subst, inl, inr, true, false, String, List, [], ◌∷◌,
  arith, Bool-cases, Option-cases, if_pos, if_neg, String_discrete, ltb, ◌&&◌, All, All-append,
}
use infer_server.Base.Int.{ℤ, ltb_ℤ}
use infer_server.Base.Dict.{IsKeyed, insert-IsKeyed, erase-IsKeyed, insert-Entries, erase-Entries}
use infer_server.Types.{CachedFrame}
use infer_server.ImageCache.{
  ImageCache, StreamCache, find_cache, expire, get_or_create, oldest_cam, make, add_stream,
  remove_stream, evict_oldest, evict_loop, evict_global_memory, total_frames, store_frame,
  add_frame, pop_front, threshold_of, empty_stream,
}
use infer_server.ImageCache.Accounting.{
  IsCounted, evict_oldest-IsCounted, store_frame-IsCounted, Call, adds_stream, removes_stream,
  adds_frame, step, run, run-make-IsCounted,
}
use infer_server.ImageCache.Scan.{
  Early, Live, IsLive, evict_oldest-total_frames, evict_oldest-IsLive, get_or_create-Early,
  unnamed-empty,
}

pop_front-max :
    (cam : String) (c : ImageCache) (s : StreamCache) (fs : List CachedFrame)
    → (pop_front cam c s fs).max_memory_bytes ≡ c.max_memory_bytes
pop_front-max cam c s [] = refl
pop_front-max cam c s (f ∷ fs) = refl

evict_oldest-max :
    (cam : String) (c : ImageCache) → (evict_oldest cam c).max_memory_bytes ≡ c.max_memory_bytes
unfolding evict_oldest
evict_oldest-max cam c = pop_front-max cam c (get_or_create cam c) (get_or_create cam c).frames

-- With fuel for a round for each frame, and one more, the loop ends by its own test, and that is
-- when the total is within the limit.
evict_loop-limit :
    (fuel : ℕ) (c : ImageCache)
    → IsCounted c
    → IsLive c
    → total_frames c < fuel
    → (evict_loop fuel c).total_memory ≤ c.max_memory_bytes
unfolding evict_loop
evict_loop-limit zero c v l h = elim h [ ]
evict_loop-limit (suc fuel) c v l h = elim (Bool-cases (ltb c.max_memory_bytes c.total_memory)) [
  | inl over ↦
      rw (over, evict_loop)
        (elim (String_discrete (oldest_cam c) "") [
          | yes e ↦ absurd (stuck e over)
          | no n ↦
              rw
                (if_neg (String_discrete (oldest_cam c) "") n c
                  (evict_loop fuel (evict_oldest (oldest_cam c) c)))
                (subst (λ m. (evict_loop fuel (evict_oldest (oldest_cam c) c)).total_memory ≤ m)
                  (evict_oldest-max (oldest_cam c) c)
                  (evict_loop-limit fuel (evict_oldest (oldest_cam c) c)
                    (evict_oldest-IsCounted (oldest_cam c) c v)
                    (evict_oldest-IsLive (oldest_cam c) c n l)
                    (omega (arith, evict_oldest-total_frames c l n))))
        ])
  | inr under ↦ rw (under, evict_loop) (within under)
]
  where
    stuck : oldest_cam c ≡ "" → ¬ (ltb c.max_memory_bytes c.total_memory ≡ true)
    stuck e over =
        let none_held = unnamed-empty c l e in
        let total : c.total_memory ≡ 0 = omega (arith, v.whole, none_held) in ground arith

    within : ltb c.max_memory_bytes c.total_memory ≡ false → c.total_memory ≤ c.max_memory_bytes
    within under = ground arith

expire-Early :
    (threshold : ℤ) (fs : List CachedFrame) (memory total : ℕ)
    → All Early fs
    → All Early (expire threshold fs memory total).0.frames
unfolding expire
expire-Early threshold [] memory total a = a
expire-Early threshold (f ∷ fs) memory total a =
    elim (Bool-cases (ltb_ℤ f.timestamp_ms threshold)) [
      | inl old ↦ rw (old, expire) (expire-Early threshold fs _ _ a.1)
      | inr young ↦ rw (young, expire) a
    ]

store_frame-IsLive :
    (f : CachedFrame) (c : ImageCache)
    → f.cam_id ≢ ""
    → Early f
    → IsLive c
    → IsLive (store_frame f c)
unfolding store_frame
store_frame-IsLive f c n e v =
    let old = get_or_create f.cam_id c in
    let kept =
      expire-Early (threshold_of c f.timestamp_ms) old.frames old.memory_bytes c.total_memory
        (get_or_create-Early f.cam_id c v) in
    record {
      keyed = insert-IsKeyed String_discrete f.cam_id _ c.caches v.keyed;
      each =
          insert-Entries String_discrete Live f.cam_id _ c.caches v.each
            (n, All-append Early _ (f ∷ []) kept (e, tt));
    }

store_frame-max :
    (f : CachedFrame) (c : ImageCache) → (store_frame f c).max_memory_bytes ≡ c.max_memory_bytes
unfolding store_frame
store_frame-max f c = refl

-- The total is within the limit after a frame is added, if there is a limit.
add_frame-limit :
    (f : CachedFrame) (c : ImageCache)
    → f.cam_id ≢ ""
    → Early f
    → IsCounted c
    → IsLive c
    → 0 < c.max_memory_bytes
    → (add_frame f c).total_memory ≤ c.max_memory_bytes
unfolding add_frame evict_global_memory
add_frame-limit f c n e v l h =
    let c' = store_frame f c in
    elim (Bool-cases (ltb 0 c'.max_memory_bytes && ltb c'.max_memory_bytes c'.total_memory)) [
      | inl over ↦
          rw (over, add_frame)
            (subst (λ m. (evict_loop (suc (total_frames c')) c').total_memory ≤ m)
              (store_frame-max f c)
              (evict_loop-limit (suc (total_frames c')) c' (store_frame-IsCounted f c v)
                (store_frame-IsLive f c n e l) (omega arith)))
      | inr under ↦ rw (under, add_frame) (within c' (store_frame-max f c) under)
    ]
  where
    within :
        (c' : ImageCache)
        → c'.max_memory_bytes ≡ c.max_memory_bytes
        → (ltb 0 c'.max_memory_bytes && ltb c'.max_memory_bytes c'.total_memory) ≡ false
        → c'.total_memory ≤ c.max_memory_bytes
    within c' m under = ground arith

-- The cache as it is used: streams with a name, and frames of such streams whose time is one that an
-- `int64_t` can hold, but for the last.
abbrev pub Proper : Call → Type 0
Proper (adds_stream cam) = cam ≢ ""
Proper (removes_stream cam) = Unit {0}
Proper (adds_frame f) = (f.cam_id ≢ "") × Early f

evict_loop-keeps :
    (fuel : ℕ) (c : ImageCache)
    → IsLive c
    → IsLive (evict_loop fuel c) × ((evict_loop fuel c).max_memory_bytes ≡ c.max_memory_bytes)
unfolding evict_loop
evict_loop-keeps zero c l = (l, refl)
evict_loop-keeps (suc fuel) c l = elim (Bool-cases (ltb c.max_memory_bytes c.total_memory)) [
  | inl over ↦
      rw (over, evict_loop)
        (elim (String_discrete (oldest_cam c) "") [
          | yes e ↦ rw (if_pos (String_discrete (oldest_cam c) "") e c _) (l, refl)
          | no n ↦
              let c' = evict_oldest (oldest_cam c) c in
              let (live, same) =
                evict_loop-keeps fuel c' (evict_oldest-IsLive (oldest_cam c) c n l) in
              rw (if_neg (String_discrete (oldest_cam c) "") n c _)
                (live, same ∙ evict_oldest-max (oldest_cam c) c)
        ])
  | inr under ↦ rw (under, evict_loop) (l, refl)
]

step-keeps :
    (c : ImageCache) (call : Call)
    → Proper call
    → IsLive c
    → IsLive (step c call) × ((step c call).max_memory_bytes ≡ c.max_memory_bytes)
unfolding step add_stream remove_stream add_frame evict_global_memory
step-keeps c (adds_stream cam) p l = elim (Option-cases (find_cache cam c)) [
  | inl e ↦
      rw (e, add_stream)
        (
          record {
            keyed = insert-IsKeyed String_discrete cam empty_stream c.caches l.keyed;
            each = insert-Entries String_discrete Live cam empty_stream c.caches l.each (p, tt);
          },
          refl,
        )
  | inr (s, e) ↦ rw (e, add_stream) (l, refl)
]
step-keeps c (removes_stream cam) p l = elim (Option-cases (find_cache cam c)) [
  | inl e ↦ rw (e, remove_stream) (l, refl)
  | inr (s, e) ↦
      rw (e, remove_stream)
        (
          record {
            keyed = erase-IsKeyed String_discrete cam c.caches l.keyed;
            each = erase-Entries String_discrete Live cam c.caches l.each;
          },
          refl,
        )
]
step-keeps c (adds_frame f) p l =
    let c' = store_frame f c in
    let l' = store_frame-IsLive f c p.0 p.1 l in
    elim (Bool-cases (ltb 0 c'.max_memory_bytes && ltb c'.max_memory_bytes c'.total_memory)) [
      | inl over ↦
          let (live, same) = evict_loop-keeps (suc (total_frames c')) c' l' in
          rw (over, add_frame) (live, same ∙ store_frame-max f c)
      | inr under ↦ rw (under, add_frame) (l', store_frame-max f c)
    ]

run-keeps :
    (c : ImageCache) (calls : List Call)
    → All Proper calls
    → IsLive c
    → IsLive (run c calls) × ((run c calls).max_memory_bytes ≡ c.max_memory_bytes)
unfolding run
run-keeps c [] p l = (l, refl)
run-keeps c (call ∷ calls) p l =
    let (l', same) = step-keeps c call p.0 l in
    let (l'', same') = run-keeps (step c call) calls p.1 l' in (l'', same' ∙ same)

make-IsLive : (duration_sec max_memory_mb : ℤ) → IsLive (make duration_sec max_memory_mb)
unfolding make IsKeyed
make-IsLive duration_sec max_memory_mb = record { keyed = tt; each = tt }

-- The memory limit holds: if the cache is made with a limit, then after any history of calls, each
-- time that a frame is added the bytes that the cache counts are within that limit. The streams
-- have names, and the frames times below `INT64_MAX`.
pub run-add_frame-limit :
    (duration_sec max_memory_mb : ℤ) (calls : List Call) (f : CachedFrame)
    → All Proper calls
    → Proper (adds_frame f)
    → 0 < (make duration_sec max_memory_mb).max_memory_bytes
    → (add_frame f (run (make duration_sec max_memory_mb) calls)).total_memory
      ≤ (make duration_sec max_memory_mb).max_memory_bytes
run-add_frame-limit d m calls f p q h =
    let c = run (make d m) calls in
    let (live, same) = run-keeps (make d m) calls p (make-IsLive d m) in
    subst (λ k. (add_frame f c).total_memory ≤ k) same
      (add_frame-limit f c q.0 q.1 (run-make-IsCounted d m calls) live (omega arith))
