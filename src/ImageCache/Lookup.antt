-- ===== src/ImageCache/Lookup.antt =====
-- What the queries return.
use infer_server.Base.{
  ℕ, suc, ◌≤◌, ◌<◌, ◌≡◌, refl, sym, ◌∙◌, ◌⊎◌, inl, inr, true, false, String, List, [], ◌∷◌, Option,
  none, some, arith, Bool-cases, Option-cases, All, subst,
}
use mathlib.Core.List.{Mem, mem-cons_self, mem-cons_of_mem}
use infer_server.Base.Int.{ℤ, pos, negsuc, eq_ℤ, ltb_ℤ, dist, eq_of_parts, ◌-ℤ◌}
use infer_server.Base.Word.{size_of_int}
use infer_server.Types.{CachedFrame}
use infer_server.ImageCache.{
  ImageCache, StreamCache, int64_max, find_cache, get_or_create, frames_of, exact, get_frame,
  to_int64, diff_of, nearest, get_nearest_frame,
}

-- The frame that `get_frame` returns is one of the stream's with that time, and if it returns none
-- the stream has no frame of that time.
abbrev pub Exactly : ℤ → List CachedFrame → Option CachedFrame → Type 0
Exactly ts fs none = All (λ f. eq_ℤ f.timestamp_ms ts ≡ false) fs
Exactly ts fs (some f) = Mem f fs × (f.timestamp_ms ≡ ts)

Exactly-cons :
    (ts : ℤ) (f : CachedFrame) (fs : List CachedFrame) (o : Option CachedFrame)
    → eq_ℤ f.timestamp_ms ts ≡ false
    → Exactly ts fs o
    → Exactly ts (f ∷ fs) o
Exactly-cons ts f fs none e h = (e, h)
Exactly-cons ts f fs (some r) e h = (mem-cons_of_mem f h.0, h.1)

eq_of_eq_ℤ : (a b : ℤ) → eq_ℤ a b ≡ true → a ≡ b
eq_of_eq_ℤ a b h = eq_of_parts a b (ground arith)

exact-Exactly : (ts : ℤ) (fs : List CachedFrame) → Exactly ts fs (exact ts fs)
unfolding exact
exact-Exactly ts [] = tt
exact-Exactly ts (f ∷ fs) = elim (Bool-cases (eq_ℤ f.timestamp_ms ts)) [
  | inl hit ↦ rw hit (mem-cons_self, eq_of_eq_ℤ f.timestamp_ms ts hit)
  | inr miss ↦ rw miss (Exactly-cons ts f fs (exact ts fs) miss (exact-Exactly ts fs))
]

pub frames_of-found :
    (cam : String) (c : ImageCache) (s : StreamCache)
    → find_cache cam c ≡ some s
    → frames_of cam c ≡ s.frames
unfolding frames_of
frames_of-found cam c s e = rw (e, frames_of, get_or_create) refl

pub frames_of-missing :
    (cam : String) (c : ImageCache) → find_cache cam c ≡ none → frames_of cam c ≡ []
unfolding frames_of
frames_of-missing cam c e = rw (e, frames_of, get_or_create) refl

-- A lookup by time returns a frame of that stream with exactly that time, and returns none only if
-- the stream has no frame of that time.
pub get_frame-Exactly :
    (cam : String) (ts : ℤ) (c : ImageCache) → Exactly ts (frames_of cam c) (get_frame cam ts c)
unfolding get_frame
get_frame-Exactly cam ts c = elim (Option-cases (find_cache cam c)) [
  | inl e ↦ rw (frames_of-missing cam c e) (rw (e, get_frame) tt)
  | inr (s, e) ↦ rw (frames_of-found cam c s e) (rw (e, get_frame) (exact-Exactly ts s.frames))
]

-- Within the range of an `int64_t` distance.
abbrev pub InRange : ℤ → CachedFrame → Type 0
InRange ts f = dist f.timestamp_ms ts < int64_max

to_int64_small : (n : ℕ) → n < int64_max → to_int64 (pos n) ≡ pos n
unfolding to_int64 size_of_int
to_int64_small n h = ground arith

to_int64_negative : (n : ℕ) → suc n < int64_max → to_int64 (negsuc n) ≡ negsuc n
unfolding to_int64 size_of_int
to_int64_negative n h = ground arith

-- In the range nothing overflows.
diff_of-dist :
    (ts : ℤ) (f : CachedFrame) → InRange ts f → diff_of ts f ≡ pos (dist f.timestamp_ms ts)
unfolding diff_of dist
diff_of-dist ts f = go (f.timestamp_ms -ℤ ts)
  where
    go :
        (d : ℤ)
        → (elim d as (λ _. ℕ) [ pos n ↦ n | negsuc n ↦ suc n ]) < int64_max
        → ◌≡◌ {A = ℤ}
            (elim (to_int64 d) as (λ _. ℤ) [ pos n ↦ pos n | negsuc n ↦ to_int64 (pos (suc n)) ])
            (pos (elim d as (λ _. ℕ) [ pos n ↦ n | negsuc n ↦ suc n ]))
    go (pos n) h = rw (to_int64_small n h) refl
    go (negsuc n) h = rw (to_int64_negative n h) (to_int64_small (suc n) h)

-- No frame of the list is closer.
abbrev pub Closest : ℤ → CachedFrame → List CachedFrame → Type 0
Closest ts b fs = All (λ f. dist b.timestamp_ms ts ≤ dist f.timestamp_ms ts) fs

-- The loop from a best frame.
nearest-some :
    (ts : ℤ) (fs : List CachedFrame) (b : CachedFrame)
    → All (InRange ts) fs
    → (r : CachedFrame) × (nearest ts fs (some b) (pos (dist b.timestamp_ms ts)) ≡ some r)
      × ((r ≡ b) ⊎ Mem r fs)
      × (dist r.timestamp_ms ts ≤ dist b.timestamp_ms ts)
      × Closest ts r fs
unfolding nearest
nearest-some ts [] b h = (b, refl, inl refl, omega arith, tt)
nearest-some ts (f ∷ fs) b h =
    elim (Bool-cases (ltb_ℤ (pos (dist f.timestamp_ms ts)) (pos (dist b.timestamp_ms ts)))) [
      | inl closer ↦
          let (r, e, m, le, all) = nearest-some ts fs f h.1 in
          (
            r,
            rw (nearest, diff_of-dist ts f h.0, closer) e,
            inr (elim m [
              | inl same ↦ subst (λ x. Mem x (f ∷ fs)) (sym same) mem-cons_self
              | inr later ↦ mem-cons_of_mem f later
            ]),
            ground arith,
            (le, all),
          )
      | inr not ↦
          let (r, e, m, le, all) = nearest-some ts fs b h.1 in
          (
            r,
            rw (nearest, diff_of-dist ts f h.0, not) e,
            (elim m [ inl same ↦ inl same | inr later ↦ inr (mem-cons_of_mem f later) ]),
            le,
            (ground arith, all),
          )
    ]

nearest-none :
    (ts : ℤ) (f : CachedFrame) (fs : List CachedFrame)
    → InRange ts f
    → nearest ts (f ∷ fs) none (pos int64_max)
      ≡ nearest ts fs (some f) (pos (dist f.timestamp_ms ts))
unfolding nearest
nearest-none ts f fs h = rw (nearest, diff_of-dist ts f h) (ground arith)

get_nearest-frames :
    (cam : String) (ts : ℤ) (c : ImageCache) (f : CachedFrame) (fs : List CachedFrame)
    → frames_of cam c ≡ f ∷ fs
    → get_nearest_frame cam ts c ≡ nearest ts (f ∷ fs) none (pos int64_max)
unfolding get_nearest_frame
get_nearest-frames cam ts c f fs e = elim (Option-cases (find_cache cam c)) [
  | inl h ↦ cc (frames_of-missing cam c h)
  | inr (s, h) ↦ rw (h, get_nearest_frame) (cc (frames_of-found cam c s h))
]

-- If the stream has a frame, and the distances of all its frames are below INT64_MAX, then a lookup
-- of the nearest frame returns one of the stream's frames, and no frame of the stream is closer to
-- the time asked for.
pub get_nearest_frame-Closest :
    (cam : String) (ts : ℤ) (c : ImageCache) (f : CachedFrame) (fs : List CachedFrame)
    → frames_of cam c ≡ f ∷ fs
    → All (InRange ts) (f ∷ fs)
    → (r : CachedFrame) × (get_nearest_frame cam ts c ≡ some r)
      × Mem r (frames_of cam c)
      × Closest ts r (frames_of cam c)
get_nearest_frame-Closest cam ts c f fs e h =
    let (r, found, m, le, all) = nearest-some ts fs f h.1 in
    let member : Mem r (f ∷ fs) = elim m [
      | inl same ↦ subst (λ x. Mem x (f ∷ fs)) (sym same) mem-cons_self
      | inr later ↦ mem-cons_of_mem f later
    ] in
    (
      r,
      get_nearest-frames cam ts c f fs e ∙ nearest-none ts f fs h.0 ∙ found,
      rw e member,
      rw e (le, all),
    )
