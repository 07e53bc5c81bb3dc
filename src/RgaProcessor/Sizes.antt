-- ===== src/RgaProcessor/Sizes.antt =====
-- The sizes of the buffers, and what the encoder may read of them.
use infer_server.Base.{
  ℕ, zero, suc, ◌+◌, ◌*◌, ◌%◌, ◌≤◌, ◌≡◌, subst, inl, inr, List, Option, none, some, arith, length,
  Option-cases,
}
use infer_server.Base.Int.{ℤ, pos, negsuc}
use infer_server.HwDecoder.Planes.{length-bytes}
use infer_server.RgaProcessor.{
  Imresize, align_even, positive_size, resized, checked, nv12_to_rgb_resize,
}

-- The next even number from `x` on.
abbrev pub IsRoundedUp : ℕ → ℕ → Type 0
IsRoundedUp x even = (even % 2 ≡ 0) × (x ≤ even) × (even ≤ x + 1)

align_even-IsRoundedUp : (x : ℕ) → IsRoundedUp x (align_even x)
unfolding align_even
align_even-IsRoundedUp x = (omega arith, omega arith, omega arith)

-- The buffer has this size, if there is one.
abbrev Fits : ℕ → Option (List ℕ) → Type 0
Fits n none = Unit
Fits n (some out) = length out ≡ n

resized-Fits :
    (imresize : Imresize) (nv12 : List ℕ) (src dst : ℕ × ℕ) (size : ℕ)
    → Fits size (resized imresize nv12 src dst size)
unfolding resized
resized-Fits imresize nv12 src dst size = elim (Option-cases (imresize nv12 src dst)) [
  | inl e ↦ rw (Fits, e) tt
  | inr (written, e) ↦ rw (Fits, e) (length-bytes written 0 size)
]

nv12_to_rgb_resize-Fits :
    (imresize : Imresize) (nv12 : Option (List ℕ)) (src_w src_h : ℤ) (w h : ℕ)
    → Fits
        (align_even w * align_even h * 3)
        (nv12_to_rgb_resize imresize nv12 src_w src_h (pos w) (pos h))
unfolding nv12_to_rgb_resize checked positive_size
nv12_to_rgb_resize-Fits imresize none src_w src_h w h = tt
nv12_to_rgb_resize-Fits imresize (some nv12) (negsuc n) src_h w h = tt
nv12_to_rgb_resize-Fits imresize (some nv12) (pos zero) src_h w h = tt
nv12_to_rgb_resize-Fits imresize (some nv12) (pos (suc n)) (negsuc k) w h = tt
nv12_to_rgb_resize-Fits imresize (some nv12) (pos (suc n)) (pos zero) w h = tt
nv12_to_rgb_resize-Fits imresize (some nv12) (pos (suc n)) (pos (suc k)) zero h = tt
nv12_to_rgb_resize-Fits imresize (some nv12) (pos (suc n)) (pos (suc k)) (suc w) zero = tt
nv12_to_rgb_resize-Fits imresize (some nv12) (pos (suc n)) (pos (suc k)) (suc w) (suc h) =
    resized-Fits imresize nv12 (suc n, suc k) (align_even (suc w), align_even (suc h)) _

area_le : (a b c d : ℕ) → a ≤ c → b ≤ d → a * b ≤ c * d
area_le a b c d h h' = grind arith

-- The picture that comes out has three bytes for each pixel of the size that was asked for, where the
-- width and the height are rounded up to even numbers: there is enough of it for an encoder that
-- reads three bytes for each pixel of the size that was asked for.
pub length-nv12_to_rgb_resize :
    (imresize : Imresize) (nv12 : Option (List ℕ)) (src_w src_h : ℤ) (w h : ℕ) (rgb : List ℕ)
    → nv12_to_rgb_resize imresize nv12 src_w src_h (pos w) (pos h) ≡ some rgb
    → (even_w : ℕ) × (even_h : ℕ) × IsRoundedUp w even_w
      × IsRoundedUp h even_h
      × (length rgb ≡ even_w * even_h * 3)
      × (w * h * 3 ≤ length rgb)
length-nv12_to_rgb_resize imresize nv12 src_w src_h w h rgb e =
    let fits =
      subst (Fits (align_even w * align_even h * 3)) e
        (nv12_to_rgb_resize-Fits imresize nv12 src_w src_h w h) in
    let up_w = align_even-IsRoundedUp w in
    let up_h = align_even-IsRoundedUp h in
    (
      align_even w,
      align_even h,
      up_w,
      up_h,
      fits,
      omega (arith, fits, area_le w h (align_even w) (align_even h) up_w.1 up_h.1),
    )
