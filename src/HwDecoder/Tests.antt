-- ===== src/HwDecoder/Tests.antt =====
-- Runs of the decoder, and its theorems at concrete inputs.
use infer_server.Base.{
  ℕ, ◌+◌, ◌*◌, ◌≡◌, refl, true, false, List, [], ◌∷◌, none, some, arith, get_elem?,
}
use infer_server.Base.Int.{pos, negsuc}
use infer_server.HwDecoder.{
  HwDecoder, Opening, AvFrame, Received, Packet, again, frames, Timing, open_rtsp, extract_nv12,
  decode_frame, skip_frame, skip_packets, copy_plane, copy_rows, bytes, open_stream, open_decoder,
  open_codec, frame_rate,
}
use infer_server.HwDecoder.Planes.{pixel, get_elem?-extract_nv12}
use infer_server.HwDecoder.Packets.{Agrees, decode_frame-skip_frame}
use infer_server.HwDecoder.Lifecycle.{IsWhole, open_rtsp-IsWhole}

-- Two lines of two pixels, each with a byte of padding.
abbrev padded : AvFrame
padded = record {
  is_nv12 = true;
  width = 2;
  height = 2;
  linesize0 = 3;
  linesize1 = 2;
  data0 = λ i. i;
  data1 = λ i. 100 + i;
}

extract_nv12-run : extract_nv12 padded ≡ 0 ∷ 1 ∷ 3 ∷ 4 ∷ 100 ∷ 101 ∷ []
unfolding extract_nv12 copy_plane copy_rows bytes
extract_nv12-run = refl

get_elem?-extract_nv12_example :
    get_elem? (extract_nv12 padded) (2 * 2 + 1) ≡ some (pixel padded 2 1)
get_elem?-extract_nv12_example = get_elem?-extract_nv12 padded 2 1 (omega arith) (omega arith)

-- An answer with which a stream opens, in software.
abbrev answers : Opening ℕ
answers = record {
  open_input = true;
  find_stream_info = true;
  best_stream = pos 1;
  rkmpp_decoder = none;
  find_decoder = some "h264";
  alloc_context3 = true;
  parameters_to_context = true;
  open2 = true;
  size = (pos 1920, pos 1080);
  avg_frame_rate = (pos 0, pos 0);
  avg_rate = 0;
  r_frame_rate = (pos 30, pos 1);
  r_rate = 30;
  frame_alloc = true;
  sw_frame_alloc = true;
  packet_alloc = true;
}

abbrev shut : HwDecoder ℕ
shut = record {
  fmt_ctx = false;
  codec_ctx = false;
  frame = false;
  sw_frame = false;
  packet = false;
  video_stream_idx = negsuc 0;
  width = pos 0;
  height = pos 0;
  fps = 0;
  codec_name = "";
  is_open = false;
  is_hw_decoder = false;
}

abbrev ready : HwDecoder ℕ
ready = record {
  fmt_ctx = true;
  codec_ctx = true;
  frame = true;
  sw_frame = true;
  packet = true;
  video_stream_idx = pos 1;
  width = pos 1920;
  height = pos 1080;
  fps = 30;
  codec_name = "h264";
  is_open = true;
  is_hw_decoder = false;
}

open_rtsp-run : open_rtsp 0 25 answers shut ≡ (ready, true)
unfolding open_rtsp open_stream open_decoder open_codec frame_rate
open_rtsp-run = refl

shut-IsWhole : IsWhole shut
shut-IsWhole = record {
  fmt_ctx = refl;
  codec_ctx = refl;
  frame = refl;
  sw_frame = refl;
  packet = refl;
}

open_rtsp-IsWhole_example :
    IsWhole (open_rtsp 0 25 answers shut).0
    × ((open_rtsp 0 25 answers shut).1 ≡ (open_rtsp 0 25 answers shut).0.is_open)
open_rtsp-IsWhole_example = open_rtsp-IsWhole 0 25 answers shut shut-IsWhole

abbrev received : Received
received = record {
  pts = none;
  best_effort_timestamp = some (pos 90);
  now = pos 1000;
  in_hardware = false;
  picture = padded;
  transferred = none;
}

-- Sound, then a packet after which the decoder wants more, then two frames.
abbrev packets : List Packet
packets =
    record { stream_index = pos 0; sent = true; receipt = again }
    ∷ record { stream_index = pos 1; sent = true; receipt = again }
    ∷ record { stream_index = pos 1; sent = true; receipt = frames received }
    ∷ record { stream_index = pos 1; sent = true; receipt = frames received }
    ∷ []

abbrev timing : Timing
timing = record { to_milliseconds = λ t. t; nopts_value = negsuc 0 }

skip_frame-run :
    skip_frame ready packets
    ≡ (true, record { stream_index = pos 1; sent = true; receipt = frames received } ∷ [])
unfolding skip_frame skip_packets
skip_frame-run = refl

decode_frame-skip_frame_example :
    Agrees
      (decode_frame ready timing)
      (skip_frame ready packets)
      (decode_frame ready timing packets)
decode_frame-skip_frame_example = decode_frame-skip_frame ready timing packets
