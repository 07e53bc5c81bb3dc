-- ===== src/HwDecoder/Lifecycle.antt =====
-- What `open` and `close` leave of a decoder.
use infer_server.Base.{
  ◌≡◌, refl, ap, ◌∙◌, sym, subst, if_true, if_false, true, false, inl, inr, Bool, not, ◌||◌,
  if◌then◌else◌, String, Option-cases, Bool-cases,
}
use infer_server.Base.Int.{pos, ltb_ℤ}
use infer_server.HwDecoder.{
  HwDecoder, Opening, close, open_codec, open_decoder, open_stream, open_rtsp,
}

-- All that FFmpeg allocates is there if the decoder is open, and nothing otherwise.
pub record IsWhole {F : Type 0} (d : HwDecoder F) : Type 0 where
  pub fmt_ctx : d.fmt_ctx ≡ d.is_open
  pub codec_ctx : d.codec_ctx ≡ d.is_open
  pub frame : d.frame ≡ d.is_open
  pub sw_frame : d.sw_frame ≡ d.is_open
  pub packet : d.packet ≡ d.is_open

-- The decoder is whole, and the result says whether it is open.
abbrev pub Says : {F : Type 0} → HwDecoder F × Bool → Type 0
Says r = IsWhole r.0 × (r.1 ≡ r.0.is_open)

Says-if :
    {F : Type 0} (b : Bool) (x y : HwDecoder F × Bool) → Says x → Says y → Says (if b then x else y)
Says-if true x y hx hy = hx
Says-if false x y hx hy = hy

all_set : (a b c : Bool) → (not a || not b || not c) ≡ false → (a ≡ true) × (b ≡ true) × (c ≡ true)
all_set true true true e = (refl, refl, refl)
all_set true true false e = cc
all_set true false c e = cc
all_set false b c e = cc

module _ {F : Type 0} (zero_f twenty_five : F) where
  pub close-IsWhole : (d : HwDecoder F) → IsWhole (close zero_f twenty_five d)
  unfolding close
  close-IsWhole d = record {
    fmt_ctx = refl;
    codec_ctx = refl;
    frame = refl;
    sw_frame = refl;
    packet = refl;
  }

  close-Says : (d : HwDecoder F) → Says (close zero_f twenty_five d, false)
  unfolding close
  close-Says d = (close-IsWhole d, refl)

  open_codec-Says :
      (w : Opening F) (d : HwDecoder F)
      → d.fmt_ctx ≡ true
      → d.codec_ctx ≡ true
      → Says (open_codec zero_f twenty_five w d)
  unfolding open_codec
  open_codec-Says w d f c = Says-if (not w.parameters_to_context) _ _ (close-Says d) (
      Says-if (not w.open2) _ _ (close-Says d)
        (elim (Bool-cases (not w.frame_alloc || not w.sw_frame_alloc || not w.packet_alloc)) [
          | inl e ↦ subst Says (sym (if_true _ _ e)) (close-Says d)
          | inr e ↦
              let all = all_set w.frame_alloc w.sw_frame_alloc w.packet_alloc e in
              subst Says (sym (if_false _ _ e)) (
                record {
                  fmt_ctx = f;
                  codec_ctx = c;
                  frame = all.0;
                  sw_frame = all.1;
                  packet = all.2;
                },
                refl,
              )
        ]))

  open_decoder-Says :
      (w : Opening F) (name : String) (d : HwDecoder F)
      → d.fmt_ctx ≡ true
      → Says (open_decoder zero_f twenty_five w name d)
  unfolding open_decoder
  open_decoder-Says w name d f =
      Says-if w.alloc_context3 _ _
        (open_codec-Says w (record d { codec_name = name; codec_ctx = true }) f refl) (close-Says d)

  open_stream-Says :
      (w : Opening F) (d : HwDecoder F)
      → d.fmt_ctx ≡ true
      → Says (open_stream zero_f twenty_five w d)
  unfolding open_stream
  open_stream-Says w d f = elim (Option-cases w.rkmpp_decoder) [
    | inr (name, e) ↦
        rw (open_stream, e) (open_decoder-Says w name (record d { is_hw_decoder = true }) f)
    | inl e ↦ elim (Option-cases w.find_decoder) [
      | inr (name, e') ↦
          rw (open_stream, e, e') (open_decoder-Says w name (record d { is_hw_decoder = false }) f)
      | inl e' ↦ rw (open_stream, e, e') (close-Says d)
    ]
  ]

  start-IsWhole :
      (d : HwDecoder F)
      → IsWhole d
      → IsWhole (if d.is_open then close zero_f twenty_five d else d)
        × ((if d.is_open then close zero_f twenty_five d else d).is_open ≡ false)
  unfolding close
  start-IsWhole d h = elim (Bool-cases d.is_open) [
    | inl e ↦ rw e (close-IsWhole d, refl)
    | inr e ↦
        let rests = if_false (close zero_f twenty_five d) d e in
        (subst IsWhole (sym rests) h, ap (λ (d' : HwDecoder F). d'.is_open) rests ∙ e)
  ]

  -- Whatever FFmpeg answers, `open` leaves a whole decoder whole, and returns whether it is open now:
  -- a failure leaves nothing allocated.
  pub open_rtsp-IsWhole :
      (w : Opening F) (d : HwDecoder F)
      → IsWhole d
      → IsWhole (open_rtsp zero_f twenty_five w d).0
        × ((open_rtsp zero_f twenty_five w d).1 ≡ (open_rtsp zero_f twenty_five w d).0.is_open)
  unfolding open_rtsp
  open_rtsp-IsWhole w d h =
      let start = if d.is_open then close zero_f twenty_five d else d in
      let (whole, shut) = start-IsWhole d h in
      Says-if (not w.open_input) _ _
        (
          record {
            fmt_ctx = sym shut;
            codec_ctx = whole.codec_ctx;
            frame = whole.frame;
            sw_frame = whole.sw_frame;
            packet = whole.packet;
          },
          sym shut,
        )
        (Says-if (not w.find_stream_info) _ _ (close-Says d) (
          Says-if (ltb_ℤ w.best_stream (pos 0)) _ _ (close-Says d) (
            open_stream-Says w (record start { fmt_ctx = true; video_stream_idx = w.best_stream })
              refl)))
