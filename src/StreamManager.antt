-- ===== src/StreamManager.antt =====
-- include/infer_server/stream/stream_manager.h and src/stream/stream_manager.cpp: the streams, their
-- decode threads and what a frame becomes. All the optional parts (FFmpeg, RGA, RKNN, TurboJPEG) are
-- taken as built. A stream is its context, which holds the state of its decode thread.
pub mod Frame
pub mod Decoding
pub mod Labels
pub mod Manager
mod Tests
use infer_server.Base.{ℕ, String, Bool, List, Option}
use infer_server.Base.Int.{ℤ}
use infer_server.Base.Dict.{Dict}
use infer_server.Types.{StreamConfig, StreamState, DecodedFrame, InferTask, CachedFrame}
use infer_server.FrameResultCollector.{FrameResultCollector}

-- Where the decode thread stands: at the head of the loop that reconnects, at the head of the loop
-- that decodes (with the frame skip and the size that it read), behind that loop, with rounds of
-- sleep left, or at its end.
pub data Point : Type 0 where
  outer : Point
  inner : (skip orig_w orig_h : ℤ) → Point
  behind : Point
  waiting : (rounds : ℕ) → Point
  ended : Point

-- The local variables of `decode_thread_func`.
pub record DecodeThread : Type 0 where
  pub point : Point
  pub local_frame_count : ℕ
  pub backoff_sec : ℕ

-- `decode_thread` is `none` when it is not joinable. `encoder_valid` is the validity of
-- `jpeg_encoder`.
pub record StreamContext (F : Type 0) : Type 0 where
  pub config : StreamConfig F
  pub state : StreamState
  pub decode_thread : Option DecodeThread
  pub running : Bool
  pub stop_requested : Bool
  pub decoded_frames : ℕ
  pub inferred_frames : ℕ
  pub reconnect_count : ℕ
  pub last_error : String
  pub start_time : ℕ
  pub encoder_valid : Bool
  pub labels_cache : Dict String (List String)

-- What the decoder answers when it is asked: the size if the stream opens, whether a frame was
-- skipped, the frame that was decoded.
pub record Answers : Type 0 where
  pub open_size : Option (ℤ × ℤ)
  pub skipped : Bool
  pub frame : Option DecodedFrame

-- `RgaProcessor::nv12_to_rgb_resize` (data, width, height, new width, new height) and
-- `JpegEncoder::encode` (data, width, height, quality), and which of `engine_` and `cache_` are there.
pub record Devices : Type 0 where
  pub has_engine : Bool
  pub has_cache : Bool
  pub nv12_to_rgb_resize : Option (List ℕ) → ℤ → ℤ → ℤ → ℤ → Option (List ℕ)
  pub encode : List ℕ → ℤ → ℤ → ℤ → List ℕ

-- What the thread hands on: a collector under its number, a task to the inference engine, and a
-- frame to the image cache.
pub data Output (F : Type 0) : Type 0 where
  collects : ℕ → FrameResultCollector F → Output F
  submits : InferTask F → Output F
  caches : CachedFrame → Output F
