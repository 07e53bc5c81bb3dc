-- ===== src/ImageCache/Tests.antt =====
-- Runs of the cache, and its theorems at concrete inputs.
use mathlib.Core.List.{Mem}
use text.Mathlib.TextEquality.{eq_iff}
use infer_server.Base.{
  ite, ℕ, ◌≤◌, ◌≡◌, ◌≢◌, refl, String, List, [], ◌∷◌, ◌++◌, some, arith, String_discrete,
}
use infer_server.Base.Int.{pos, dist, ◌-ℤ◌, times}
use infer_server.Base.Word.{add64, sub64, size_of_int, mul64}
use infer_server.Base.Dict.{find, insert, sum_by}
use infer_server.Types.{CachedFrame, jpeg_size}
use infer_server.ImageCache.{
  ImageCache, make, add_stream, add_frame, store_frame, frames_of, get_or_create, get_nearest_frame,
  threshold_of, expire, evict_global_memory, diff_of, to_int64, oldest, total_frames, evict_loop,
}
use infer_server.ImageCache.Accounting.{
  Call, adds_stream, adds_frame, run, step, IsCounted, run-make-IsCounted,
}
use infer_server.ImageCache.Limit.{run-add_frame-limit}
use infer_server.ImageCache.Expiry.{since, store_frame-frames, add_frame-Rest, Rest}
use infer_server.ImageCache.Lookup.{get_nearest_frame-Closest, Closest}

program : Unit {0}
unfolding find insert get_or_create make add_frame store_frame frames_of get_nearest_frame
    threshold_of expire evict_global_memory oldest total_frames evict_loop run step add64 sub64
    size_of_int mul64 jpeg_size String_discrete dist ◌-ℤ◌ times since add_stream sum_by diff_of
    to_int64
program = tt

abbrev shot : String → ℕ → CachedFrame
shot cam at = record {
  cam_id = cam;
  frame_id = 0;
  timestamp_ms = pos at;
  width = pos 640;
  height = pos 360;
  jpeg_data = some (1 ∷ 2 ∷ 3 ∷ []);
}

abbrev calls : List Call
calls = adds_stream "b" ∷ adds_frame (shot "a" 1000) ∷ adds_frame (shot "a" 5000) ∷ []

abbrev five_seconds : ImageCache
five_seconds = run (make (pos 5) (pos 64)) calls

frames_of-shots : frames_of "a" five_seconds ≡ shot "a" 1000 ∷ shot "a" 5000 ∷ []
unfolding program
frames_of-shots = refl

frames_of-late :
    frames_of "a" (add_frame (shot "a" 9000) five_seconds) ≡ shot "a" 5000 ∷ shot "a" 9000 ∷ []
unfolding program
frames_of-late = refl

-- A cache with room for four bytes: the second frame drives out the first.
frames_of-small :
    frames_of "a" (
      add_frame
        (shot "b" 20)
        (add_frame (shot "a" 10) (record (make (pos 5) (pos 1)) { max_memory_bytes = 4 })))
    ≡ []
unfolding program
frames_of-small = refl

a-ne-empty : ◌≢◌ {A = String} "a" ""
a-ne-empty = ground (arith, eq_iff "a" "")

b-ne-empty : ◌≢◌ {A = String} "b" ""
b-ne-empty = ground (arith, eq_iff "b" "")

run-add_frame-limit_example :
    (add_frame (shot "a" 9000) (run (make (pos 5) (pos 64)) calls)).total_memory
    ≤ (make (pos 5) (pos 64)).max_memory_bytes
unfolding make mul64 size_of_int
run-add_frame-limit_example =
    run-add_frame-limit (pos 5) (pos 64) calls (shot "a" 9000)
      (b-ne-empty, ((a-ne-empty, omega arith), ((a-ne-empty, omega arith), tt)))
      (a-ne-empty, omega arith) (omega arith)

run-make-IsCounted_example : IsCounted five_seconds
run-make-IsCounted_example = run-make-IsCounted (pos 5) (pos 64) calls

store_frame-frames_example :
    frames_of "a" (store_frame (shot "a" 9000) five_seconds)
    ≡ ite
        (String_discrete "a" "a")
        (since (threshold_of five_seconds (pos 9000)) (frames_of "a" five_seconds)
          ++ shot "a" 9000 ∷ [])
        (frames_of "a" five_seconds)
unfolding program
store_frame-frames_example =
    store_frame-frames (shot "a" 9000) five_seconds "a" ((omega arith, tt), (tt, tt))

add_frame-Rest_example :
    Rest
      (frames_of "a" (store_frame (shot "a" 9000) five_seconds))
      (frames_of "a" (add_frame (shot "a" 9000) five_seconds))
add_frame-Rest_example = add_frame-Rest (shot "a" 9000) five_seconds "a"

get_nearest_frame-Closest_example :
    (r : CachedFrame) × (get_nearest_frame "a" (pos 2000) five_seconds ≡ some r)
    × Mem r (frames_of "a" five_seconds)
    × Closest (pos 2000) r (frames_of "a" five_seconds)
unfolding program
get_nearest_frame-Closest_example =
    get_nearest_frame-Closest "a" (pos 2000) five_seconds (shot "a" 1000) (shot "a" 5000 ∷ []) refl
      (omega arith, (omega arith, tt))
