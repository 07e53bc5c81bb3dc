-- ===== src/ImageCache/Expiry.antt =====
-- Which frames are given up: those that are too old for their stream, and the oldest of a stream
-- when memory runs out.
use infer_server.Base.{
  ℕ, zero, suc, ◌+◌, ◌≡◌, ◌≢◌, refl, sym, ap, ◌∙◌, subst, inl, inr, false, String, List, [], ◌∷◌,
  ◌++◌, arith, Bool-cases, All, ltb, String_discrete, ite, drop, if_pos, if_neg, if◌then◌else◌,
  ◌&&◌,
}
use infer_server.Base.Int.{ℤ, ltb_ℤ, ◌≤ℤ◌}
use infer_server.Base.Dict.{insert, find-insert_self, find-insert_ne}
use infer_server.Types.{CachedFrame}
use infer_server.ImageCache.{
  ImageCache, StreamCache, get_or_create, frames_of, expire, threshold_of, store_frame, add_frame,
  evict_global_memory, evict_loop, evict_oldest, oldest_cam, pop_front, total_frames,
}
use infer_server.ImageCache.Lookup.{frames_of-found}

-- Frames in order of time.
abbrev pub InOrder : List CachedFrame → Type 0
InOrder [] = Unit {0}
InOrder (f ∷ fs) = All (λ g. f.timestamp_ms ≤ℤ g.timestamp_ms) fs × InOrder fs

-- The frames that are not older than a time.
unfoldable pub since : ℤ → List CachedFrame → List CachedFrame
since threshold [] = []
since threshold (f ∷ fs) =
    if ltb_ℤ f.timestamp_ms threshold then since threshold fs else f ∷ since threshold fs

since-All :
    (threshold : ℤ) (f : CachedFrame) (fs : List CachedFrame)
    → ltb_ℤ f.timestamp_ms threshold ≡ false
    → All (λ g. f.timestamp_ms ≤ℤ g.timestamp_ms) fs
    → since threshold fs ≡ fs
unfolding since
since-All threshold f [] e a = refl
since-All threshold f (g ∷ fs) e a = ground (arith, a.0, since-All threshold f fs e a.1)

-- On frames in order the loop of `evict_expired`, which stops at the first young frame, keeps
-- exactly the young ones.
expire-since :
    (threshold : ℤ) (fs : List CachedFrame) (memory total : ℕ)
    → InOrder fs
    → (expire threshold fs memory total).0.frames ≡ since threshold fs
unfolding expire since
expire-since threshold [] memory total o = refl
expire-since threshold (f ∷ fs) memory total o =
    elim (Bool-cases (ltb_ℤ f.timestamp_ms threshold)) [
      | inl old ↦ rw (old, expire) (expire-since threshold fs _ _ o.1)
      | inr young ↦ rw (young, expire) (ap (◌∷◌ f) (sym (since-All threshold f fs young o.0)))
    ]

frames_of-insert :
    (cam : String) (s : StreamCache) (total : ℕ) (c : ImageCache)
    → frames_of cam
        (record c { caches = insert String_discrete cam s c.caches; total_memory = total })
      ≡ s.frames
frames_of-insert cam s total c =
    frames_of-found cam _ s (find-insert_self String_discrete cam s c.caches)

frames_of-insert_ne :
    (cam j : String) (s : StreamCache) (total : ℕ) (c : ImageCache)
    → cam ≢ j
    → frames_of j
        (record c { caches = insert String_discrete cam s c.caches; total_memory = total })
      ≡ frames_of j c
unfolding frames_of get_or_create
frames_of-insert_ne cam j s total c n =
    rw (find-insert_ne String_discrete cam j s c.caches n, frames_of, get_or_create) refl

store_frame-own :
    (f : CachedFrame) (c : ImageCache)
    → InOrder (frames_of f.cam_id c)
    → frames_of f.cam_id (store_frame f c)
      ≡ since (threshold_of c f.timestamp_ms) (frames_of f.cam_id c) ++ f ∷ []
unfolding store_frame frames_of
store_frame-own f c o =
    frames_of-insert f.cam_id _ c.total_memory c
    ∙ ap (λ fs. fs ++ f ∷ [])
        (expire-since (threshold_of c f.timestamp_ms) (get_or_create f.cam_id c).frames _ _ o)

store_frame-other :
    (f : CachedFrame) (c : ImageCache) (cam : String)
    → f.cam_id ≢ cam
    → frames_of cam (store_frame f c) ≡ frames_of cam c
unfolding store_frame frames_of
store_frame-other f c cam n = frames_of-insert_ne f.cam_id cam _ c.total_memory c n

-- A new frame joins the frames of its stream that are not older than the stream's duration, and
-- the other streams keep theirs, if the stream's frames are in order of time.
pub store_frame-frames :
    (f : CachedFrame) (c : ImageCache) (cam : String)
    → InOrder (frames_of f.cam_id c)
    → frames_of cam (store_frame f c)
      ≡ ite
          (String_discrete f.cam_id cam)
          (since (threshold_of c f.timestamp_ms) (frames_of f.cam_id c) ++ f ∷ [])
          (frames_of cam c)
store_frame-frames f c cam o = elim (String_discrete f.cam_id cam) [
  | yes p ↦
      ap (λ k. frames_of k (store_frame f c)) (sym p)
      ∙ store_frame-own f c o
      ∙ sym (if_pos (String_discrete f.cam_id cam) p _ _)
  | no n ↦ store_frame-other f c cam n ∙ sym (if_neg (String_discrete f.cam_id cam) n _ _)
]

drop-nil {ℓ} : {A : Type ℓ} (k : ℕ) → drop {A = A} k [] ≡ []
drop-nil zero = refl
drop-nil (suc k) = refl

drop-drop {ℓ} : {A : Type ℓ} (k l : ℕ) (xs : List A) → drop k (drop l xs) ≡ drop (l + k) xs
drop-drop k zero xs = ap (λ n. drop n xs) {x = k} (omega arith)
drop-drop {A} k (suc l) [] = drop-nil k ∙ sym (drop-nil {A = A} (suc l + k))
drop-drop k (suc l) (x ∷ xs) =
    drop-drop k l xs ∙ ap (λ n. drop n (x ∷ xs)) {x = suc (l + k)} {y = suc l + k} (omega arith)

-- Some of the oldest are gone.
abbrev pub Rest : List CachedFrame → List CachedFrame → Type 0
Rest before after = (k : ℕ) × (after ≡ drop k before)

pop_front-Rest :
    (cam j : String) (c : ImageCache) (s : StreamCache) (fs : List CachedFrame)
    → s.frames ≡ fs
    → frames_of cam c ≡ fs
    → Rest (frames_of j c) (frames_of j (pop_front cam c s fs))
pop_front-Rest cam j c s [] e q = elim (String_discrete cam j) [
  | yes same ↦ (0, frames_of-put cam j c s same ∙ e ∙ sym q ∙ ap (λ i. frames_of i c) same)
  | no other ↦ (0, frames_of-insert_ne cam j s c.total_memory c other)
]
  where
    frames_of-put :
        (cam j : String) (c : ImageCache) (s : StreamCache)
        → cam ≡ j
        → frames_of j (pop_front cam c s []) ≡ s.frames
    frames_of-put cam j c s same =
        subst (λ i. frames_of i (pop_front cam c s []) ≡ s.frames) same
          (frames_of-insert cam s c.total_memory c)
pop_front-Rest cam j c s (f ∷ fs) e q = elim (String_discrete cam j) [
  | yes same ↦ (
    1,
    subst (λ i. frames_of i (pop_front cam c s (f ∷ fs)) ≡ drop 1 (frames_of i c)) same
        (frames_of-insert cam _ _ c ∙ ap (drop 1) (sym q)),
  )
  | no other ↦ (0, frames_of-insert_ne cam j _ _ c other)
]

evict_oldest-Rest :
    (cam j : String) (c : ImageCache) → Rest (frames_of j c) (frames_of j (evict_oldest cam c))
unfolding evict_oldest frames_of
evict_oldest-Rest cam j c = pop_front-Rest cam j c (get_or_create cam c) _ refl refl

evict_loop-Rest :
    (fuel : ℕ) (j : String) (c : ImageCache)
    → Rest (frames_of j c) (frames_of j (evict_loop fuel c))
unfolding evict_loop
evict_loop-Rest zero j c = (0, refl)
evict_loop-Rest (suc fuel) j c = elim (Bool-cases (ltb c.max_memory_bytes c.total_memory)) [
  | inl over ↦ elim (String_discrete (oldest_cam c) "") [
    | yes e ↦ (
      0,
      rw (over, evict_loop)
          (ap (frames_of j) (
            if_pos (String_discrete (oldest_cam c) "") e c
              (evict_loop fuel (evict_oldest (oldest_cam c) c)))),
    )
    | no n ↦
        let c' = evict_oldest (oldest_cam c) c in
        let (k, first) = evict_oldest-Rest (oldest_cam c) j c in
        let (l, later) = evict_loop-Rest fuel j c' in
        (
          k + l,
          rw (over, evict_loop)
                (ap (frames_of j)
                  (if_neg (String_discrete (oldest_cam c) "") n c (evict_loop fuel c')))
              ∙ later
              ∙ ap (drop l) first
              ∙ drop-drop l k (frames_of j c),
        )
  ]
  | inr under ↦ (0, rw (under, evict_loop) refl)
]

-- Eviction for memory takes a stream's oldest frames only: after a frame is added each stream holds
-- a suffix of what expiry and the new frame left it.
pub add_frame-Rest :
    (f : CachedFrame) (c : ImageCache) (cam : String)
    → Rest (frames_of cam (store_frame f c)) (frames_of cam (add_frame f c))
unfolding add_frame evict_global_memory store_frame
add_frame-Rest f c cam =
    let c' = store_frame f c in
    elim (Bool-cases (ltb 0 c'.max_memory_bytes && ltb c'.max_memory_bytes c'.total_memory)) [
      | inl over ↦ rw (over, add_frame) (evict_loop-Rest (suc (total_frames c')) cam c')
      | inr under ↦ rw (under, add_frame) (0, refl)
    ]
