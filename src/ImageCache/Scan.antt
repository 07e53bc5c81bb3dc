-- ===== src/ImageCache/Scan.antt =====
-- The scan of `evict_global_memory` for the stream whose front frame is the oldest, and what a round
-- of that loop does.
use infer_server.Base.{
  ◌+◌, ◌<◌, ◌≡◌, ◌≢◌, refl, ap, sym, ◌∙◌, subst, ◌⊎◌, inl, inr, false, String, List, [], ◌∷◌, none,
  some, arith, Bool-cases, Option-cases, length, if_pos, if_neg, String_discrete, All,
}
use infer_server.Base.Int.{ℤ, pos, ◌<ℤ◌, ltb_ℤ}
use infer_server.Base.Word.{sub64}
use infer_server.Base.Dict.{
  Dict, find, IsKeyed, insert-IsKeyed, sum_by, sum_by-insert, Entries, find-Entries, insert-Entries,
}
use infer_server.Types.{CachedFrame, jpeg_size}
use infer_server.ImageCache.{
  ImageCache, StreamCache, int64_max, find_cache, get_or_create, older, oldest, oldest_cam,
  evict_oldest, total_frames, pop_front,
}
use infer_server.ImageCache.Entry.{bytes}
use infer_server.ImageCache.Accounting.{held, stream_bytes}

-- A time that an `int64_t` can hold, but for the last.
abbrev pub Early : CachedFrame → Type 0
Early f = f.timestamp_ms <ℤ pos int64_max

abbrev pub Live : String → StreamCache → Type 0
Live cam s = (cam ≢ "") × All Early s.frames

-- No stream has the empty name, and every frame has a time below `INT64_MAX`.
pub record IsLive (c : ImageCache) : Type 0 where
  pub keyed : IsKeyed String_discrete c.caches
  pub each : Entries Live c.caches

-- Nobody beats the time `ts` in the scan.
abbrev Unbeaten : ℤ → List CachedFrame → Type 0
Unbeaten ts [] = Unit {0}
Unbeaten ts (f ∷ fs) = ltb_ℤ f.timestamp_ms ts ≡ false

-- If the scan ends with the empty name, it began with it, and no front frame was older than the
-- time that it began with.
older-unnamed :
    (cam : String) (fs : List CachedFrame) (best : String × ℤ)
    → cam ≢ ""
    → (older cam fs best).0 ≡ ""
    → (older cam fs best ≡ best) × (best.0 ≡ "") × Unbeaten best.1 fs
older-unnamed cam [] best n e = (refl, e, tt)
older-unnamed cam (f ∷ fs) best n e = elim (Bool-cases (ltb_ℤ f.timestamp_ms best.1)) [
  | inl beats ↦ absurd (n (rw beats at e))
  | inr not ↦ rw not (refl, (rw not at e), refl)
]

oldest-unnamed :
    (m : Dict String StreamCache) (best : String × ℤ)
    → Entries Live m
    → (oldest m best).0 ≡ ""
    → (best.0 ≡ "") × Entries (λ cam s. Unbeaten best.1 s.frames) m
unfolding oldest
oldest-unnamed [] best h e = (e, tt)
oldest-unnamed ((cam, s) ∷ m) best h e =
    let (e', rest) = oldest-unnamed m (older cam s.frames best) h.1 e in
    let (same, named, unbeaten) = older-unnamed cam s.frames best h.0.0 e' in
    (named, (unbeaten, subst (λ b. Entries (λ cam s. Unbeaten b.1 s.frames) m) same rest))

older-cases :
    (cam : String) (fs : List CachedFrame) (best : String × ℤ)
    → ((older cam fs best).0 ≡ best.0) ⊎ (((older cam fs best).0 ≡ cam) × (0 < length fs))
older-cases cam [] best = inl refl
older-cases cam (f ∷ fs) best = elim (Bool-cases (ltb_ℤ f.timestamp_ms best.1)) [
  | inl beats ↦ rw beats (inr (refl, omega arith))
  | inr not ↦ rw not (inl refl)
]

-- If it ends with another name than it began with, then a stream of that name has a frame.
oldest-stream :
    (m : Dict String StreamCache) (best : String × ℤ)
    → IsKeyed String_discrete m
    → ((oldest m best).0 ≡ best.0)
      ⊎ ((s : StreamCache) × (find String_discrete (oldest m best).0 m ≡ some s)
          × (0 < length s.frames))
unfolding oldest IsKeyed find
oldest-stream [] best k = inl refl
oldest-stream ((cam, s) ∷ m) best k = elim (oldest-stream m (older cam s.frames best) k.1) [
  | inl e ↦ elim (older-cases cam s.frames best) [
    | inl e' ↦ inl (e ∙ e')
    | inr (e', p) ↦ inr (s, if_pos (String_discrete cam _) (sym (e ∙ e')) _ _, p)
  ]
  | inr (w, found, p) ↦
      inr (w, if_neg (String_discrete cam _) (λ same. other m w k.0 found same) _ _ ∙ found, p)
]
  where
    other :
        (m : Dict String StreamCache) (w : StreamCache) {x y : String}
        → find String_discrete x m ≡ none
        → find String_discrete y m ≡ some w
        → x ≢ y
    other m w a b e = cc (subst (λ z. find String_discrete z m ≡ none) e a)

get_or_create-found :
    (cam : String) (c : ImageCache) (s : StreamCache)
    → find_cache cam c ≡ some s
    → get_or_create cam c ≡ s
unfolding get_or_create
get_or_create-found cam c s e = rw (e, get_or_create) refl

pop_front-total_frames :
    (cam : String) (c : ImageCache) (s : StreamCache) (fs : List CachedFrame)
    → find_cache cam c ≡ some s
    → s.frames ≡ fs
    → 0 < length fs
    → total_frames (pop_front cam c s fs) + 1 ≡ total_frames c
unfolding total_frames
pop_front-total_frames cam c s [] e q h = elim h [ ]
pop_front-total_frames cam c s (f ∷ fs) e q h = omega (
  arith,
  ap length q,
  sum_by-insert String_discrete (λ (s : StreamCache). length s.frames) cam
      (record { frames = fs; memory_bytes = sub64 s.memory_bytes (jpeg_size f) }) c.caches e,
)

-- Each round takes one frame away.
pub evict_oldest-total_frames :
    (c : ImageCache)
    → IsLive c
    → oldest_cam c ≢ ""
    → total_frames (evict_oldest (oldest_cam c) c) + 1 ≡ total_frames c
unfolding evict_oldest oldest_cam
evict_oldest-total_frames c v n = elim (oldest-stream c.caches ("", pos int64_max) v.keyed) [
  | inl e ↦ absurd (n e)
  | inr (s, e, p) ↦
      rw (get_or_create-found (oldest_cam c) c s e)
        (pop_front-total_frames (oldest_cam c) c s s.frames e refl p)
]

pop_front-IsLive :
    (cam : String) (c : ImageCache) (s : StreamCache) (fs : List CachedFrame)
    → cam ≢ ""
    → IsLive c
    → All Early s.frames
    → s.frames ≡ fs
    → IsLive (pop_front cam c s fs)
pop_front-IsLive cam c s [] n v a e = record {
  keyed = insert-IsKeyed String_discrete cam s c.caches v.keyed;
  each = insert-Entries String_discrete Live cam s c.caches v.each (n, a);
}
pop_front-IsLive cam c s (f ∷ fs) n v a e = record {
  keyed = insert-IsKeyed String_discrete cam _ c.caches v.keyed;
  each = insert-Entries String_discrete Live cam _ c.caches v.each (n, (subst (All Early) e a).1);
}

pub get_or_create-Early :
    (cam : String) (c : ImageCache) → IsLive c → All Early (get_or_create cam c).frames
unfolding get_or_create
get_or_create-Early cam c v = elim (Option-cases (find_cache cam c)) [
  | inl e ↦ rw (e, get_or_create) tt
  | inr (s, e) ↦ rw (e, get_or_create) (find-Entries String_discrete Live cam c.caches v.each e).1
]

pub evict_oldest-IsLive :
    (cam : String) (c : ImageCache) → cam ≢ "" → IsLive c → IsLive (evict_oldest cam c)
unfolding evict_oldest
evict_oldest-IsLive cam c n v =
    pop_front-IsLive cam c (get_or_create cam c) _ n v (get_or_create-Early cam c v) refl

-- A front frame that does not beat `INT64_MAX` is none.
Unbeaten-empty : (fs : List CachedFrame) → All Early fs → Unbeaten (pos int64_max) fs → bytes fs ≡ 0
unfolding bytes
Unbeaten-empty [] a u = refl
Unbeaten-empty (f ∷ fs) a u = absurd (late f u a.0)
  where
    late : (f : CachedFrame) → ltb_ℤ f.timestamp_ms (pos int64_max) ≡ false → ¬ Early f
    late f u e = ground arith

all_empty :
    (m : Dict String StreamCache)
    → Entries Live m
    → Entries (λ cam s. Unbeaten (pos int64_max) s.frames) m
    → sum_by stream_bytes m ≡ 0
unfolding sum_by
all_empty [] h u = refl
all_empty ((cam, s) ∷ m) h u = omega (arith, Unbeaten-empty s.frames h.0.1 u.0, all_empty m h.1 u.1)

-- The loop gives up only when nothing is left.
pub unnamed-empty : (c : ImageCache) → IsLive c → oldest_cam c ≡ "" → held c ≡ 0
unfolding oldest_cam held
unnamed-empty c v e =
    all_empty c.caches v.each (oldest-unnamed c.caches ("", pos int64_max) v.each e).1
