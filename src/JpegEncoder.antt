-- ===== src/JpegEncoder.antt =====
-- include/infer_server/cache/jpeg_encoder.h and src/cache/jpeg_encoder.cpp: the checks around
-- TurboJPEG, whose `tjCompress2` is a parameter: the picture, its width and height and the quality,
-- to the bytes, or none if it fails.
pub mod Checked
mod Tests
use infer_server.Base.{
  ℕ, suc, Bool, true, false, not, List, [], ◌∷◌, Option, none, some, ◌||◌, if◌then◌else◌, ltb, leb,
}
use infer_server.Base.Int.{ℤ, pos, negsuc, pos_part, ltb_ℤ}

-- The handle, which `tjInitCompress` may fail to make.
pub record JpegEncoder : Type 0 where
  pub has_handle : Bool

unfoldable pub is_valid : JpegEncoder → Bool
is_valid e = e.has_handle

abbrev pub Compress : Type 0
Compress = List ℕ → ℤ → ℤ → ℤ → Option (List ℕ)

-- `std::max(1, std::min(100, quality))`
unfoldable pub clamp_quality : ℤ → ℤ
clamp_quality quality =
    let least = if ltb_ℤ quality (pos 100) then quality else pos 100 in
    if ltb_ℤ (pos 1) least then least else pos 1

-- `rgb_data` is `none` when it is null.
unfoldable pub encode : Compress → JpegEncoder → Option (List ℕ) → ℤ → ℤ → ℤ → List ℕ
unfolding clamp_quality
encode compress e none width height quality = []
encode compress e (some rgb) width height quality =
    if not e.has_handle
    then []
    else if not (ltb_ℤ (pos 0) width) || not (ltb_ℤ (pos 0) height)
    then []
    else elim (compress rgb width height (clamp_quality quality)) [ none ↦ [] | some jpeg ↦ jpeg ]
