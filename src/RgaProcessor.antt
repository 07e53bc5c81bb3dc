-- ===== src/RgaProcessor.antt =====
-- include/infer_server/processor/rga_processor.h and src/processor/rga_processor.cpp: the checks and
-- the buffers around librga, whose `imresize` is a parameter: the picture with its size, and the size
-- to scale to, give the bytes that it writes at each offset, or nothing if it fails. The sizes are
-- below 2^31 - 1, so that no sum or product overflows.
pub mod Sizes
mod Tests
use infer_server.Base.{ℕ, suc, ◌+◌, ◌*◌, ◌/◌, List, Option, none, some}
use infer_server.Base.Int.{ℤ, pos}
use infer_server.HwDecoder.{bytes}

abbrev pub Imresize : Type 0
Imresize = List ℕ → ℕ × ℕ → ℕ × ℕ → Option (ℕ → ℕ)

-- `(x + 1) & ~1`
unfoldable pub align_even : ℕ → ℕ
align_even x = 2 * ((x + 1) / 2)

-- A size that passes the checks: both numbers are above 0.
unfoldable pub positive_size : ℤ → ℤ → Option (ℕ × ℕ)
positive_size (pos (suc w)) (pos (suc h)) = some (suc w, suc h)
positive_size w h = none

-- The buffer that `imresize` fills, of the size that both functions give it.
unfoldable pub resized : Imresize → List ℕ → ℕ × ℕ → ℕ × ℕ → ℕ → Option (List ℕ)
unfolding bytes
resized imresize nv12 src dst size = elim (imresize nv12 src dst) [
  | none ↦ none
  | some written ↦ some (bytes written 0 size)
]

-- The checks of the arguments, and the alignment.
unfoldable pub checked : Option (List ℕ) → ℤ → ℤ → ℤ → ℤ → Option (List ℕ × (ℕ × ℕ) × (ℕ × ℕ))
unfolding positive_size align_even
checked none src_w src_h dst_w dst_h = none
checked (some nv12) src_w src_h dst_w dst_h = elim (positive_size src_w src_h) [
  | none ↦ none
  | some src ↦ elim (positive_size dst_w dst_h) [
    | none ↦ none
    | some dst ↦ some (nv12, src, (align_even dst.0, align_even dst.1))
  ]
]

-- `nv12_data` is `none` when it is null.
unfoldable pub nv12_to_rgb_resize : Imresize → Option (List ℕ) → ℤ → ℤ → ℤ → ℤ → Option (List ℕ)
unfolding checked resized
nv12_to_rgb_resize imresize nv12_data src_w src_h dst_w dst_h =
    elim (checked nv12_data src_w src_h dst_w dst_h) [
      | none ↦ none
      | some (nv12, src, dst) ↦ resized imresize nv12 src dst (dst.0 * dst.1 * 3)
    ]

unfoldable pub nv12_resize : Imresize → Option (List ℕ) → ℤ → ℤ → ℤ → ℤ → Option (List ℕ)
unfolding checked resized
nv12_resize imresize nv12_data src_w src_h dst_w dst_h =
    elim (checked nv12_data src_w src_h dst_w dst_h) [
      | none ↦ none
      | some (nv12, src, dst) ↦ resized imresize nv12 src dst (dst.0 * dst.1 * 3 / 2)
    ]

unfoldable pub calc_proportional_height : ℤ → ℤ → ℤ → ℤ
unfolding align_even
calc_proportional_height (pos (suc w)) (pos (suc h)) (pos (suc target)) =
    pos (align_even (suc target * suc h / suc w))
calc_proportional_height src_w src_h target_w = pos 0
