-- ===== src/JpegEncoder/Tests.antt =====
-- The encoder with a compressor that tells what it was asked for.
use infer_server.Base.{[], ◌∷◌, some, ◌≡◌, refl, true}
use infer_server.Base.Int.{pos, pos_part}
use infer_server.JpegEncoder.{JpegEncoder, Compress, clamp_quality, encode}

abbrev echo : Compress
echo rgb w h q = some (pos_part w ∷ pos_part h ∷ pos_part q ∷ [])

abbrev encoder : JpegEncoder
encoder = record { has_handle = true }

encode_run :
    encode echo encoder (some (9 ∷ [])) (pos 640) (pos 360) (pos 400) ≡ 640 ∷ 360 ∷ 100 ∷ []
unfolding encode clamp_quality
encode_run = refl
