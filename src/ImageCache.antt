-- ===== src/ImageCache.antt =====
-- include/infer_server/cache/image_cache.h and src/cache/image_cache.cpp: the JPEG frames that are
-- kept for each stream, with a limit in time for each stream and a limit in memory for all.
-- A call is one step here. Sizes are `size_t` and wrap at 2^64; `int64_t` times are integers.
pub mod Entry
pub mod Accounting
pub mod Scan
pub mod Limit
pub mod Expiry
pub mod Lookup
mod Tests
use infer_server.Base.{
  ℕ, zero, suc, ◌+◌, ◌*◌, ◌^◌, ◌-◌, ◌≡◌, String, Bool, true, false, List, [], ◌∷◌, ◌++◌, Option,
  none, some, ltb, leb, ◌==◌, ◌&&◌, if◌then◌else◌, length, get_last?, String_discrete, ite,
}
use infer_server.Base.Int.{ℤ, pos, negsuc, ◌-ℤ◌, ltb_ℤ, eq_ℤ, times, sub_ℕ}
use infer_server.Base.Word.{add64, sub64, mul64, size_of_int}
use infer_server.Base.Dict.{Dict, find, insert, erase, sum_by}
use infer_server.Types.{CachedFrame, jpeg_size}

-- Oldest frame first.
pub record StreamCache : Type 0 where
  pub frames : List CachedFrame
  pub memory_bytes : ℕ

pub record ImageCache : Type 0 where
  pub duration_sec : ℤ
  pub max_memory_bytes : ℕ
  pub caches : Dict String StreamCache
  pub total_memory : ℕ

abbrev pub empty_stream : StreamCache
empty_stream = record { frames = []; memory_bytes = 0 }

-- `INT64_MAX`
abbrev pub int64_max : ℕ
int64_max = 2 ^ 63 - 1

unfoldable pub make : ℤ → ℤ → ImageCache
make duration_sec max_memory_mb = record {
  duration_sec = duration_sec;
  max_memory_bytes = mul64 (mul64 (size_of_int max_memory_mb) 1024) 1024;
  caches = [];
  total_memory = 0;
}

abbrev pub find_cache : String → ImageCache → Option StreamCache
find_cache cam c = find String_discrete cam c.caches

abbrev pub put_cache : String → StreamCache → ImageCache → ImageCache
put_cache cam s c = record c { caches = insert String_discrete cam s c.caches }

-- `add_stream`, and the effect of `get_or_create_cache`.
unfoldable pub add_stream : String → ImageCache → ImageCache
add_stream cam c = elim (find_cache cam c) [ none ↦ put_cache cam empty_stream c | some _ ↦ c ]

unfoldable pub remove_stream : String → ImageCache → ImageCache
remove_stream cam c = elim (find_cache cam c) [
  | none ↦ c
  | some s ↦ record c {
    caches = erase String_discrete cam c.caches;
    total_memory = sub64 c.total_memory s.memory_bytes;
  }
]

-- The stream that `get_or_create_cache` returns.
unfoldable pub get_or_create : String → ImageCache → StreamCache
get_or_create cam c = elim (find_cache cam c) [ none ↦ empty_stream | some s ↦ s ]

-- Frames at the front that are older than `threshold` go, and their sizes leave both counters.
unfoldable pub expire : ℤ → List CachedFrame → ℕ → ℕ → StreamCache × ℕ
expire threshold [] memory total = (record { frames = []; memory_bytes = memory }, total)
expire threshold (f ∷ fs) memory total = elim (ltb_ℤ f.timestamp_ms threshold) [
  | true ↦ expire threshold fs (sub64 memory (jpeg_size f)) (sub64 total (jpeg_size f))
  | false ↦ (record { frames = f ∷ fs; memory_bytes = memory }, total)
]

unfoldable pub threshold_of : ImageCache → ℤ → ℤ
threshold_of c now_ms = now_ms -ℤ times c.duration_sec 1000

unfoldable pub evict_expired : ImageCache → StreamCache → ℤ → StreamCache × ℕ
evict_expired c s now_ms = expire (threshold_of c now_ms) s.frames s.memory_bytes c.total_memory

-- The scan for the stream whose front frame is the oldest: its name, or the empty text, and the
-- time of that frame.
abbrev pub older : String → List CachedFrame → String × ℤ → String × ℤ
older cam [] best = best
older cam (f ∷ fs) best = if ltb_ℤ f.timestamp_ms best.1 then (cam, f.timestamp_ms) else best

unfoldable pub oldest : Dict String StreamCache → String × ℤ → String × ℤ
oldest [] best = best
oldest ((cam, s) ∷ m) best = oldest m (older cam s.frames best)

unfoldable pub oldest_cam : ImageCache → String
oldest_cam c = (oldest c.caches ("", pos int64_max)).0

-- One stream loses its front frame.
abbrev pub pop_front : String → ImageCache → StreamCache → List CachedFrame → ImageCache
pop_front cam c s [] = put_cache cam s c
pop_front cam c s (f ∷ fs) = record c {
  caches =
      insert String_discrete cam
        (record { frames = fs; memory_bytes = sub64 s.memory_bytes (jpeg_size f) }) c.caches;
  total_memory = sub64 c.total_memory (jpeg_size f);
}

unfoldable pub evict_oldest : String → ImageCache → ImageCache
unfolding get_or_create
evict_oldest cam c = let s = get_or_create cam c in pop_front cam c s s.frames

-- The loop of `evict_global_memory`, on fuel.
unfoldable pub evict_loop : ℕ → ImageCache → ImageCache
unfolding evict_oldest oldest_cam
evict_loop zero c = c
evict_loop (suc fuel) c = elim (ltb c.max_memory_bytes c.total_memory) [
  | false ↦ c
  | true ↦
      let rest = evict_loop fuel (evict_oldest (oldest_cam c) c) in
      ite (String_discrete (oldest_cam c) "") c rest
]

unfoldable pub total_frames : ImageCache → ℕ
total_frames c = sum_by (λ s. length s.frames) c.caches

unfoldable pub evict_global_memory : ImageCache → ImageCache
evict_global_memory c = evict_loop (suc (total_frames c)) c

-- `add_frame` up to its check of the memory limit.
unfoldable pub store_frame : CachedFrame → ImageCache → ImageCache
unfolding get_or_create evict_expired
store_frame frame c =
    let (s, total) = evict_expired c (get_or_create frame.cam_id c) frame.timestamp_ms in
    let s' = record s {
      frames = s.frames ++ frame ∷ [];
      memory_bytes = add64 s.memory_bytes (jpeg_size frame);
    } in
    record c {
      caches = insert String_discrete frame.cam_id s' c.caches;
      total_memory = add64 total (jpeg_size frame);
    }

unfoldable pub add_frame : CachedFrame → ImageCache → ImageCache
add_frame frame c =
    let c' = store_frame frame c in
    if ltb 0 c'.max_memory_bytes && ltb c'.max_memory_bytes c'.total_memory
    then evict_global_memory c'
    else c'

-- The frames of a stream; no stream has none.
unfoldable pub frames_of : String → ImageCache → List CachedFrame
unfolding get_or_create
frames_of cam c = (get_or_create cam c).frames

-- The loop of `get_frame`.
unfoldable pub exact : ℤ → List CachedFrame → Option CachedFrame
exact ts [] = none
exact ts (f ∷ fs) = if eq_ℤ f.timestamp_ms ts then some f else exact ts fs

unfoldable pub get_frame : String → ℤ → ImageCache → Option CachedFrame
unfolding exact
get_frame cam ts c = elim (find_cache cam c) [ none ↦ none | some s ↦ exact ts s.frames ]

-- An `int64_t` of these bits: the difference of two of them, and the negation of one, may overflow,
-- which wraps here (C++ leaves it open).
unfoldable pub to_int64 : ℤ → ℤ
unfolding size_of_int
to_int64 a = let n = size_of_int a in if ltb n (2 ^ 63) then pos n else sub_ℕ n (2 ^ 64)

-- `std::abs(f.timestamp_ms - timestamp_ms)`
unfoldable pub diff_of : ℤ → CachedFrame → ℤ
unfolding to_int64 ◌-ℤ◌
diff_of ts f = elim (to_int64 (f.timestamp_ms -ℤ ts)) [
  | pos n ↦ pos n
  | negsuc n ↦ to_int64 (pos (suc n))
]

-- The loop of `get_nearest_frame`: the best frame so far and its distance.
unfoldable pub nearest : ℤ → List CachedFrame → Option CachedFrame → ℤ → Option CachedFrame
unfolding diff_of
nearest ts [] best best_diff = best
nearest ts (f ∷ fs) best best_diff =
    let closer = nearest ts fs (some f) (diff_of ts f) in
    let same = nearest ts fs best best_diff in
    if ltb_ℤ (diff_of ts f) best_diff then closer else same

unfoldable pub get_nearest_frame : String → ℤ → ImageCache → Option CachedFrame
unfolding nearest
get_nearest_frame cam ts c = elim (find_cache cam c) [
  | none ↦ none
  | some s ↦ nearest ts s.frames none (pos int64_max)
]

unfoldable pub get_latest_frame : String → ImageCache → Option CachedFrame
get_latest_frame cam c = elim (find_cache cam c) [ none ↦ none | some s ↦ get_last? s.frames ]

unfoldable pub stream_frame_count : String → ImageCache → ℕ
unfolding frames_of
stream_frame_count cam c = length (frames_of cam c)

pub stream_count : ImageCache → ℕ
stream_count c = length c.caches
