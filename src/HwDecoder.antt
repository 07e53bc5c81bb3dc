-- ===== src/HwDecoder.antt =====
-- include/infer_server/decoder/hw_decoder.h and src/decoder/hw_decoder.cpp: the decoder of a stream.
-- FFmpeg is not code of this repository: what it answers while a stream opens, and what each packet
-- leads to, are arguments. A pointer is whether it is set. The sizes and line sizes that FFmpeg
-- gives for a picture are not negative, and products of them do not overflow an `int`.
mod Tests
pub mod Lifecycle
pub mod Planes
pub mod Packets
use infer_server.Base.{
  ℕ, zero, suc, ◌+◌, ◌*◌, ◌/◌, String, Bool, true, false, not, List, [], ◌∷◌, ◌++◌, Option, none,
  some, ◌==◌, ◌&&◌, ◌||◌, if◌then◌else◌,
}
use infer_server.Base.Int.{ℤ, pos, negsuc, ltb_ℤ, eq_ℤ}
use infer_server.Types.{DecodedFrame}

-- `F` is `double`.
pub record HwDecoder (F : Type 0) : Type 0 where
  pub fmt_ctx : Bool
  pub codec_ctx : Bool
  pub frame : Bool
  pub sw_frame : Bool
  pub packet : Bool
  pub video_stream_idx : ℤ
  pub width : ℤ
  pub height : ℤ
  pub fps : F
  pub codec_name : String
  pub is_open : Bool
  pub is_hw_decoder : Bool

-- A decoder that `avcodec_find_decoder` or `avcodec_find_decoder_by_name` finds, by its name.
pub record Opening (F : Type 0) : Type 0 where
  pub open_input : Bool
  pub find_stream_info : Bool
  -- What `av_find_best_stream` returns.
  pub best_stream : ℤ
  -- The RKMPP decoder that is there for the codec, H.264 or H.265, and the decoder in software.
  pub rkmpp_decoder : Option String
  pub find_decoder : Option String
  pub alloc_context3 : Bool
  pub parameters_to_context : Bool
  pub open2 : Bool
  pub size : ℤ × ℤ
  -- The rates as numerator and denominator, and as the number that `av_q2d` gives.
  pub avg_frame_rate : ℤ × ℤ
  pub avg_rate : F
  pub r_frame_rate : ℤ × ℤ
  pub r_rate : F
  pub frame_alloc : Bool
  pub sw_frame_alloc : Bool
  pub packet_alloc : Bool

module _ {F : Type 0} (zero_f twenty_five : F) where
  unfoldable pub close : HwDecoder F → HwDecoder F
  close d = record {
    fmt_ctx = false;
    codec_ctx = false;
    frame = false;
    sw_frame = false;
    packet = false;
    video_stream_idx = negsuc 0;
    width = pos 0;
    height = pos 0;
    fps = zero_f;
    codec_name = "";
    is_open = false;
    is_hw_decoder = false;
  }

  abbrev pub is_rate : ℤ × ℤ → Bool
  is_rate q = ltb_ℤ (pos 0) q.1 && ltb_ℤ (pos 0) q.0

  unfoldable pub frame_rate : Opening F → F
  frame_rate w =
      if is_rate w.avg_frame_rate
      then w.avg_rate
      else if is_rate w.r_frame_rate
      then w.r_rate
      else twenty_five

  -- From the decoder's context on, which is set.
  unfoldable pub open_codec : Opening F → HwDecoder F → HwDecoder F × Bool
  unfolding close frame_rate
  open_codec w d =
      let made = record d {
        width = w.size.0;
        height = w.size.1;
        fps = frame_rate w;
        frame = w.frame_alloc;
        sw_frame = w.sw_frame_alloc;
        packet = w.packet_alloc;
      } in
      if not w.parameters_to_context
      then (close d, false)
      else if not w.open2
      then (close d, false)
      else if not w.frame_alloc || not w.sw_frame_alloc || not w.packet_alloc
      then (close made, false)
      else (record made { is_open = true }, true)

  -- With the decoder that was found, by its name.
  unfoldable pub open_decoder : Opening F → String → HwDecoder F → HwDecoder F × Bool
  unfolding close open_codec
  open_decoder w name d =
      let named = record d { codec_name = name } in
      if w.alloc_context3
      then open_codec w (record named { codec_ctx = true })
      else (close named, false)

  -- From the choice of a decoder on.
  unfoldable pub open_stream : Opening F → HwDecoder F → HwDecoder F × Bool
  unfolding close open_decoder
  open_stream w d = elim w.rkmpp_decoder [
    | some name ↦ open_decoder w name (record d { is_hw_decoder = true })
    | none ↦ elim w.find_decoder [
      | none ↦ (close d, false)
      | some name ↦ open_decoder w name (record d { is_hw_decoder = false })
    ]
  ]

  -- `avformat_open_input` leaves the pointer null when it fails.
  -- `open`, whose name is a word of the language here.
  unfoldable pub open_rtsp : Opening F → HwDecoder F → HwDecoder F × Bool
  unfolding close open_stream
  open_rtsp w d =
      let start = if d.is_open then close d else d in
      let opened = record start { fmt_ctx = true } in
      let found = record opened { video_stream_idx = w.best_stream } in
      if not w.open_input
      then (record start { fmt_ctx = false }, false)
      else if not w.find_stream_info
      then (close opened, false)
      else if ltb_ℤ w.best_stream (pos 0)
      then (close found, false)
      else open_stream w found

-- What the code reads of an `AVFrame`: a plane is a function from an offset to the byte there. `none`
-- is AV_NOPTS_VALUE.
pub record AvFrame : Type 0 where
  pub is_nv12 : Bool
  pub width : ℕ
  pub height : ℕ
  pub linesize0 : ℕ
  pub linesize1 : ℕ
  pub data0 : ℕ → ℕ
  pub data1 : ℕ → ℕ

-- A frame that the decoder hands out: its time stamps, the picture, if it is in memory, or else what
-- `av_hwframe_transfer_data` makes of it, if it succeeds. `now` is the system's clock.
pub record Received : Type 0 where
  pub pts : Option ℤ
  pub best_effort_timestamp : Option ℤ
  pub now : ℤ
  pub in_hardware : Bool
  pub picture : AvFrame
  pub transferred : Option AvFrame

-- What one round of the loop finds: the packet's stream, whether the decoder takes the packet, and
-- what it hands out then: nothing yet, an error, or a frame.
pub data Receipt : Type 0 where
  again : Receipt
  fails : Receipt
  frames : Received → Receipt

pub record Packet : Type 0 where
  pub stream_index : ℤ
  pub sent : Bool
  pub receipt : Receipt

-- `n` bytes of a plane, from an offset on.
unfoldable pub bytes : (ℕ → ℕ) → ℕ → ℕ → List ℕ
bytes plane start zero = []
bytes plane start (suc n) = plane start ∷ bytes plane (suc start) n

-- Row by row, `rows` of them from number `row` on.
unfoldable pub copy_rows : (ℕ → ℕ) → ℕ → ℕ → ℕ → ℕ → List ℕ
unfolding bytes
copy_rows plane linesize w row zero = []
copy_rows plane linesize w row (suc rows) =
    bytes plane (row * linesize) w ++ copy_rows plane linesize w (suc row) rows

-- One plane: at once, if its lines have no padding.
unfoldable pub copy_plane : (ℕ → ℕ) → ℕ → ℕ → ℕ → List ℕ
unfolding bytes copy_rows
copy_plane plane linesize w rows =
    if linesize == w then bytes plane 0 (w * rows) else copy_rows plane linesize w 0 rows

-- The buffer, which the two planes fill.
unfoldable pub extract_nv12 : AvFrame → List ℕ
unfolding copy_plane
extract_nv12 f =
    copy_plane f.data0 f.linesize0 f.width f.height
    ++ copy_plane f.data1 f.linesize1 f.width (f.height / 2)

-- `av_rescale_q` from the stream's time base to milliseconds, and the number of AV_NOPTS_VALUE.
pub record Timing : Type 0 where
  pub to_milliseconds : ℤ → ℤ
  pub nopts_value : ℤ

-- The picture to copy from: none if the transfer fails or the format is another.
unfoldable pub source_picture : Received → Option AvFrame
source_picture r =
    let usable = λ (f : AvFrame). if f.is_nv12 then some f else none in
    if r.in_hardware
    then elim r.transferred [ none ↦ none | some sw ↦ usable sw ]
    else usable r.picture

unfoldable pub presentation : Received → Option ℤ
presentation r = elim r.pts [ none ↦ r.best_effort_timestamp | some t ↦ some t ]

-- `DecodedFrame` with the members that the code sets; the others have their defaults.
unfoldable pub decoded : Timing → ℤ → Received → AvFrame → DecodedFrame
unfolding presentation extract_nv12
decoded timing video_stream_idx r f = record {
  cam_id = "";
  rtsp_url = "";
  frame_id = 0;
  pts = elim (presentation r) [ none ↦ timing.nopts_value | some t ↦ t ];
  timestamp_ms = elim (presentation r) [
    | none ↦ r.now
    | some t ↦ if ltb_ℤ video_stream_idx (pos 0) then r.now else timing.to_milliseconds t
  ];
  width = pos f.width;
  height = pos f.height;
  nv12_data = some (extract_nv12 f);
}

-- The loop, over the packets that are still to come: after the last, reading fails. The rest of the
-- packets is what the next call finds.
unfoldable pub decode_packets : Timing → ℤ → List Packet → Option DecodedFrame × List Packet
unfolding source_picture decoded
decode_packets timing idx [] = (none, [])
decode_packets timing idx (p ∷ packets) =
    let continue = decode_packets timing idx packets in
    if not (eq_ℤ p.stream_index idx)
    then continue
    else if not p.sent
    then continue
    else elim p.receipt [
      | again ↦ continue
      | fails ↦ (none, packets)
      | frames r ↦ elim (source_picture r) [
        | none ↦ continue
        | some f ↦ (some (decoded timing idx r f), packets)
      ]
    ]

unfoldable pub skip_packets : ℤ → List Packet → Bool × List Packet
skip_packets idx [] = (false, [])
skip_packets idx (p ∷ packets) =
    let continue = skip_packets idx packets in
    if not (eq_ℤ p.stream_index idx)
    then continue
    else if not p.sent
    then continue
    else elim p.receipt [ again ↦ continue | fails ↦ (false, packets) | frames r ↦ (true, packets) ]

module _ {F : Type 0} (d : HwDecoder F) where
  unfoldable pub decode_frame : Timing → List Packet → Option DecodedFrame × List Packet
  unfolding decode_packets
  decode_frame timing packets =
      if d.is_open then decode_packets timing d.video_stream_idx packets else (none, packets)

  unfoldable pub skip_frame : List Packet → Bool × List Packet
  unfolding skip_packets
  skip_frame packets =
      if d.is_open then skip_packets d.video_stream_idx packets else (false, packets)
