-- ===== src/JpegEncoder/Checked.antt =====
-- What the encoder asks of TurboJPEG.
use infer_server.Base.{ℕ, ◌≡◌, refl, inl, inr, List, Option, none, some, arith, Bool-cases}
use infer_server.Base.Int.{ℤ, pos, negsuc, ltb_ℤ, ◌≤ℤ◌, ◌<ℤ◌}
use infer_server.JpegEncoder.{JpegEncoder, Compress, clamp_quality, encode}

clamp_quality-range : (q : ℤ) → (pos 1 ≤ℤ clamp_quality q) × (clamp_quality q ≤ℤ pos 100)
unfolding clamp_quality
clamp_quality-range (pos n) = ground arith
clamp_quality-range (negsuc n) = ground arith

-- Only the answers to calls with a positive size and a quality from 1 to 100 matter: `tjCompress2`
-- is never called with others, whatever the caller asks for.
pub encode-checked :
    (c c' : Compress)
    → ((rgb : List ℕ) (w h q : ℤ)
        → pos 0 <ℤ w
        → pos 0 <ℤ h
        → pos 1 ≤ℤ q
        → q ≤ℤ pos 100
        → c rgb w h q ≡ c' rgb w h q)
    → (e : JpegEncoder) (rgb : Option (List ℕ)) (w h q : ℤ)
    → encode c e rgb w h q ≡ encode c' e rgb w h q
unfolding encode
encode-checked c c' agree e none w h q = refl
encode-checked c c' agree e (some rgb) w h q = elim (Bool-cases (ltb_ℤ (pos 0) w)) [
  | inr flat ↦ rw flat refl
  | inl wide ↦ elim (Bool-cases (ltb_ℤ (pos 0) h)) [
    | inr low ↦ rw (wide, low) refl
    | inl high ↦
        let range = clamp_quality-range q in
        let same =
          agree rgb w h (clamp_quality q) (ground (arith, wide)) (ground (arith, high)) range.0
            range.1 in
        rw (wide, high, same) refl
  ]
]
