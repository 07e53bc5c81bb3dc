-- ===== src/HwDecoder/Packets.antt =====
-- `skip_frame` reads the stream as `decode_frame` does.
use infer_server.Base.{
  ◌≡◌, refl, true, false, inl, inr, ◌⊎◌, Bool, not, List, [], ◌∷◌, Option, none, some,
  if◌then◌else◌, Option-cases, Bool-cases,
}
use infer_server.Base.Int.{ℤ, eq_ℤ}
use infer_server.Types.{DecodedFrame}
use infer_server.HwDecoder.{
  HwDecoder, Timing, Packet, Receipt, again, fails, frames, decode_packets, skip_packets,
  decode_frame, skip_frame, source_picture, decoded,
}

-- What `decode_frame` comes to where `skip_frame` came to `skipped`; `decode` is another call of it,
-- on the packets that it is given.
abbrev pub Agrees :
    (List Packet → Option DecodedFrame × List Packet)
    → Bool × List Packet
    → Option DecodedFrame × List Packet
    → Type 0
Agrees decode skipped done =
    if skipped.0
    then ((f : DecodedFrame) × (done ≡ (some f, skipped.1))) ⊎ (done ≡ decode skipped.1)
    else done ≡ (none, skipped.1)

-- A test that both loops make before they go on.
Agrees-if :
    (decode : List Packet → Option DecodedFrame × List Packet) (b : Bool)
    (s s' : Bool × List Packet) (r r' : Option DecodedFrame × List Packet)
    → Agrees decode s r
    → Agrees decode s' r'
    → Agrees decode (if b then s else s') (if b then r else r')
Agrees-if decode true s s' r r' h h' = h
Agrees-if decode false s s' r r' h h' = h'

module _ (timing : Timing) (idx : ℤ) where
  Agrees-receipt :
      (receipt : Receipt) (packets : List Packet)
      → Agrees
          (decode_packets timing idx)
          (skip_packets idx packets)
          (decode_packets timing idx packets)
      → Agrees
          (decode_packets timing idx)
          (elim receipt [
            | again ↦ skip_packets idx packets
            | fails ↦ (false, packets)
            | frames r ↦ (true, packets)
          ])
          (elim receipt [
            | again ↦ decode_packets timing idx packets
            | fails ↦ (none, packets)
            | frames r ↦ elim (source_picture r) [
              | none ↦ decode_packets timing idx packets
              | some f ↦ (some (decoded timing idx r f), packets)
            ]
          ])
  Agrees-receipt again packets h = h
  Agrees-receipt fails packets h = refl
  Agrees-receipt (frames r) packets h = elim (Option-cases (source_picture r)) [
    | inl e ↦ inr (rw e refl)
    | inr (f, e) ↦ inl (decoded timing idx r f, rw e refl)
  ]

  decode_packets-skip_packets :
      (packets : List Packet)
      → Agrees
          (decode_packets timing idx)
          (skip_packets idx packets)
          (decode_packets timing idx packets)
  unfolding decode_packets skip_packets
  decode_packets-skip_packets [] = refl
  decode_packets-skip_packets (p ∷ packets) =
      let rest = decode_packets-skip_packets packets in
      Agrees-if (decode_packets timing idx) (not (eq_ℤ p.stream_index idx)) _ _ _ _ rest (
        Agrees-if (decode_packets timing idx) (not p.sent) _ _ _ _ rest
          (Agrees-receipt p.receipt packets rest))

-- On the same packets, if `skip_frame` fails then `decode_frame` returns nothing, and both have read
-- as far. If it succeeds, then `decode_frame` returns a frame and both have read as far, or it found
-- that the picture of that frame cannot be used, and does what it would do if it were called behind
-- that frame. So a skip loses exactly one frame of the decoder.
pub decode_frame-skip_frame :
    {F : Type 0} (d : HwDecoder F) (timing : Timing) (packets : List Packet)
    → Agrees (decode_frame d timing) (skip_frame d packets) (decode_frame d timing packets)
unfolding decode_frame skip_frame
decode_frame-skip_frame d timing packets = elim (Bool-cases d.is_open) [
  | inl e ↦ rw e (decode_packets-skip_packets timing d.video_stream_idx packets)
  | inr e ↦ rw e refl
]
