-- ===== src/ImageCache/Accounting.antt =====
-- The byte counters of the cache agree with the frames that it holds, after any calls.
use infer_server.Base.{
  ℕ, zero, suc, ◌+◌, ◌-◌, ◌%◌, ◌≤◌, ◌≡◌, refl, ap, String, List, [], ◌∷◌, none, arith, Bool-cases,
  Option-cases, inl, inr, if_pos, if_neg, String_discrete, ltb, ◌&&◌,
}
use infer_server.Base.Int.{ℤ}
use infer_server.Base.Word.{word, sub64, sub64_of_mod, add64}
use infer_server.Base.Dict.{
  insert, sum_by, sum_by-erase, Entries, find-Entries, insert-Entries, erase-Entries,
}
use infer_server.Types.{CachedFrame, jpeg_size}
use infer_server.ImageCache.{
  ImageCache, StreamCache, find_cache, get_or_create, make, add_stream, remove_stream,
  evict_expired, threshold_of, evict_oldest, evict_loop, evict_global_memory, store_frame,
  add_frame, oldest_cam, pop_front, empty_stream,
}
use infer_server.ImageCache.Entry.{bytes, bytes-append, expire-counted, sum_by-get_or_create}

abbrev pub stream_bytes : StreamCache → ℕ
stream_bytes s = bytes s.frames

-- The bytes of all frames that the cache holds.
unfoldable pub held : ImageCache → ℕ
held c = sum_by stream_bytes c.caches

abbrev pub Counted : String → StreamCache → Type 0
Counted cam s = s.memory_bytes ≡ bytes s.frames % word

pub record IsCounted (c : ImageCache) : Type 0 where
  pub each : Entries Counted c.caches
  pub whole : c.total_memory ≡ held c % word

bytes-nil : bytes [] ≡ 0
unfolding bytes
bytes-nil = refl

bytes-one : (f : CachedFrame) → bytes (f ∷ []) ≡ jpeg_size f
unfolding bytes
bytes-one f = omega arith

get_or_create-none :
    (cam : String) (c : ImageCache)
    → find_cache cam c ≡ none
    → bytes (get_or_create cam c).frames ≡ 0
unfolding get_or_create bytes
get_or_create-none cam c e = rw (e, get_or_create) refl

get_or_create-Counted :
    (cam : String) (c : ImageCache) → IsCounted c → Counted cam (get_or_create cam c)
unfolding get_or_create bytes
get_or_create-Counted cam c v = elim (Option-cases (find_cache cam c)) [
  | inl e ↦ rw (e, get_or_create) (omega arith)
  | inr (s, e) ↦ rw (e, get_or_create) (find-Entries String_discrete Counted cam c.caches v.each e)
]

held-insert :
    (cam : String) (s : StreamCache) (c : ImageCache)
    → sum_by stream_bytes (insert String_discrete cam s c.caches)
        + bytes (get_or_create cam c).frames
      ≡ held c + bytes s.frames
unfolding held bytes
held-insert cam s c = sum_by-get_or_create stream_bytes cam s c refl

bytes-le-held : (cam : String) (c : ImageCache) → bytes (get_or_create cam c).frames ≤ held c
unfolding bytes
bytes-le-held cam c = omega (arith, held-insert cam empty_stream c)

-- A stream is set to `s`, and the total changes by as much as its frames do.
set-IsCounted :
    (cam : String) (s : StreamCache) (total : ℕ) (c : ImageCache)
    → IsCounted c
    → Counted cam s
    → total ≡ (held c - bytes (get_or_create cam c).frames + bytes s.frames) % word
    → IsCounted (record c { caches = insert String_discrete cam s c.caches; total_memory = total })
unfolding held
set-IsCounted cam s total c v h t = record {
  each = insert-Entries String_discrete Counted cam s c.caches v.each h;
  whole = omega (arith, held-insert cam s c, bytes-le-held cam c);
}

make-IsCounted : (duration_sec max_memory_mb : ℤ) → IsCounted (make duration_sec max_memory_mb)
unfolding make held sum_by
make-IsCounted duration_sec max_memory_mb = record { each = tt; whole = omega arith }

add_stream-IsCounted : (cam : String) (c : ImageCache) → IsCounted c → IsCounted (add_stream cam c)
unfolding add_stream
add_stream-IsCounted cam c v = elim (Option-cases (find_cache cam c)) [
  | inl e ↦
      rw (e, add_stream)
        (set-IsCounted cam empty_stream c.total_memory c v (omega (arith, bytes-nil))
          (omega (arith, v.whole, get_or_create-none cam c e, bytes-nil, bytes-le-held cam c)))
  | inr (s, e) ↦ rw (e, add_stream) v
]

remove_stream-IsCounted :
    (cam : String) (c : ImageCache) → IsCounted c → IsCounted (remove_stream cam c)
unfolding remove_stream held sub64
remove_stream-IsCounted cam c v = elim (Option-cases (find_cache cam c)) [
  | inl e ↦ rw (e, remove_stream) v
  | inr (s, e) ↦
      rw (e, remove_stream)
        (record {
          each = erase-Entries String_discrete Counted cam c.caches v.each;
          whole = omega (
            arith,
            sum_by-erase String_discrete stream_bytes cam c.caches e,
            find-Entries String_discrete Counted cam c.caches v.each e,
          );
        })
]

pub store_frame-IsCounted :
    (f : CachedFrame) (c : ImageCache) → IsCounted c → IsCounted (store_frame f c)
unfolding store_frame add64 bytes
store_frame-IsCounted f c v =
    let old = get_or_create f.cam_id c in
    let le = bytes-le-held f.cam_id c in
    let (m, t) =
      expire-counted (threshold_of c f.timestamp_ms) old.frames old.memory_bytes c.total_memory
        (held c - bytes old.frames) (get_or_create-Counted f.cam_id c v)
        (omega (arith, v.whole, le)) in
    let kept = (evict_expired c old f.timestamp_ms).0 in
    set-IsCounted f.cam_id _ _ c v
      (omega (arith, m, bytes-append kept.frames (f ∷ []), bytes-one f))
      (omega (arith, t, le, bytes-append kept.frames (f ∷ []), bytes-one f))

pop_front-IsCounted :
    (cam : String) (c : ImageCache) (fs : List CachedFrame)
    → IsCounted c
    → (get_or_create cam c).frames ≡ fs
    → IsCounted (pop_front cam c (get_or_create cam c) fs)
unfolding bytes
pop_front-IsCounted cam c [] v e =
    set-IsCounted cam (get_or_create cam c) c.total_memory c v (get_or_create-Counted cam c v)
      (omega (arith, v.whole, bytes-le-held cam c))
pop_front-IsCounted cam c (f ∷ fs) v e =
    let old = get_or_create cam c in
    let size : bytes old.frames ≡ jpeg_size f + bytes fs = ap bytes e in
    let le = bytes-le-held cam c in
    set-IsCounted cam (record { frames = fs; memory_bytes = sub64 old.memory_bytes (jpeg_size f) })
      (sub64 c.total_memory (jpeg_size f)) c v
      (sub64_of_mod old.memory_bytes (bytes fs) (jpeg_size f)
        (omega (arith, get_or_create-Counted cam c v)))
      (sub64_of_mod c.total_memory _ (jpeg_size f) (omega (arith, v.whole, le, size)))

pub evict_oldest-IsCounted :
    (cam : String) (c : ImageCache) → IsCounted c → IsCounted (evict_oldest cam c)
unfolding evict_oldest
evict_oldest-IsCounted cam c v = pop_front-IsCounted cam c (get_or_create cam c).frames v refl

evict_loop-IsCounted : (fuel : ℕ) (c : ImageCache) → IsCounted c → IsCounted (evict_loop fuel c)
unfolding evict_loop
evict_loop-IsCounted zero c v = v
evict_loop-IsCounted (suc fuel) c v = elim (Bool-cases (ltb c.max_memory_bytes c.total_memory)) [
  | inl over ↦
      rw (over, evict_loop)
        (elim (String_discrete (oldest_cam c) "") [
          | yes p ↦ rw (if_pos _ p) v
          | no p ↦ rw (if_neg _ p) (
              evict_loop-IsCounted fuel (evict_oldest (oldest_cam c) c)
                (evict_oldest-IsCounted (oldest_cam c) c v))
        ])
  | inr under ↦ rw (under, evict_loop) v
]

add_frame-IsCounted : (f : CachedFrame) (c : ImageCache) → IsCounted c → IsCounted (add_frame f c)
unfolding add_frame evict_global_memory
add_frame-IsCounted f c v =
    let c' = store_frame f c in
    let v' = store_frame-IsCounted f c v in
    elim (Bool-cases (ltb 0 c'.max_memory_bytes && ltb c'.max_memory_bytes c'.total_memory)) [
      | inl over ↦ rw (over, add_frame) (evict_loop-IsCounted _ c' v')
      | inr under ↦ rw (under, add_frame) v'
    ]

-- The calls that change the cache.
pub data Call : Type 0 where
  adds_stream removes_stream : String → Call
  adds_frame : CachedFrame → Call

unfoldable pub step : ImageCache → Call → ImageCache
step c (adds_stream cam) = add_stream cam c
step c (removes_stream cam) = remove_stream cam c
step c (adds_frame f) = add_frame f c

unfoldable pub run : ImageCache → List Call → ImageCache
run c [] = c
run c (call ∷ calls) = run (step c call) calls

pub step-IsCounted : (c : ImageCache) (call : Call) → IsCounted c → IsCounted (step c call)
unfolding step
step-IsCounted c (adds_stream cam) v = add_stream-IsCounted cam c v
step-IsCounted c (removes_stream cam) v = remove_stream-IsCounted cam c v
step-IsCounted c (adds_frame f) v = add_frame-IsCounted f c v

run-IsCounted : (c : ImageCache) (calls : List Call) → IsCounted c → IsCounted (run c calls)
unfolding run
run-IsCounted c [] v = v
run-IsCounted c (call ∷ calls) v = run-IsCounted (step c call) calls (step-IsCounted c call v)

-- Whatever calls are made on a new cache, each stream's byte counter equals the bytes of the frames
-- of that stream, and the global counter the bytes of all frames, modulo 2^64: no path through
-- expiry, eviction, replacement or removal makes them drift.
pub run-make-IsCounted :
    (duration_sec max_memory_mb : ℤ) (calls : List Call)
    → IsCounted (run (make duration_sec max_memory_mb) calls)
run-make-IsCounted duration_sec max_memory_mb calls =
    run-IsCounted _ calls (make-IsCounted duration_sec max_memory_mb)
