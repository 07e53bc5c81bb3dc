-- ===== src/RgaProcessor/Tests.antt =====
-- A conversion of a picture, and the theorem on its size.
use infer_server.Base.{ℕ, ◌*◌, ◌≤◌, ◌≡◌, refl, List, [], ◌∷◌, some, length}
use infer_server.Base.Int.{pos}
use infer_server.HwDecoder.{bytes}
use infer_server.RgaProcessor.{
  Imresize, align_even, resized, checked, positive_size, nv12_to_rgb_resize,
}
use infer_server.RgaProcessor.Sizes.{IsRoundedUp, length-nv12_to_rgb_resize}

abbrev grey : Imresize
grey = λ nv12 src dst. some (λ i. 128)

abbrev converted : List ℕ
converted = bytes (λ i. 128) 0 12

nv12_to_rgb_resize-run :
    nv12_to_rgb_resize grey (some (1 ∷ 2 ∷ 3 ∷ [])) (pos 2) (pos 1) (pos 1) (pos 2) ≡ some converted
unfolding nv12_to_rgb_resize checked positive_size resized align_even
nv12_to_rgb_resize-run = refl

length-nv12_to_rgb_resize_example :
    (even_w : ℕ) × (even_h : ℕ) × IsRoundedUp 1 even_w
    × IsRoundedUp 2 even_h
    × (length converted ≡ even_w * even_h * 3)
    × (1 * 2 * 3 ≤ length converted)
length-nv12_to_rgb_resize_example =
    length-nv12_to_rgb_resize grey (some (1 ∷ 2 ∷ 3 ∷ [])) (pos 2) (pos 1) 1 2 converted
      nv12_to_rgb_resize-run
