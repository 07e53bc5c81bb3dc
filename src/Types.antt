-- ===== src/Types.antt =====
-- include/infer_server/common/types.h: the data that the components exchange. Floating-point
-- numbers are a type `F` of which nothing is known here; `int` and `int64_t` are integers. A null
-- `shared_ptr` is `none`; the aggregator of a task is the number of its collector.
use infer_server.Base.{ℕ, String, List, Option, none, some, length}
use infer_server.Base.Int.{ℤ}

pub record ModelConfig (F : Type 0) : Type 0 where
  pub model_path : String
  pub task_name : String
  pub model_type : String
  pub input_width : ℤ
  pub input_height : ℤ
  pub conf_threshold : F
  pub nms_threshold : F
  pub labels_file : String

pub record StreamConfig (F : Type 0) : Type 0 where
  pub cam_id : String
  pub rtsp_url : String
  pub frame_skip : ℤ
  pub models : List (ModelConfig F)

pub record BBox (F : Type 0) : Type 0 where
  pub x1 : F
  pub y1 : F
  pub x2 : F
  pub y2 : F

pub record Detection (F : Type 0) : Type 0 where
  pub class_id : ℤ
  pub class_name : String
  pub confidence : F
  pub bbox : BBox F

pub record ModelResult (F : Type 0) : Type 0 where
  pub task_name : String
  pub model_path : String
  pub inference_time_ms : F
  pub detections : List (Detection F)

pub record FrameResult (F : Type 0) : Type 0 where
  pub cam_id : String
  pub rtsp_url : String
  pub frame_id : ℕ
  pub timestamp_ms : ℤ
  pub pts : ℤ
  pub original_width : ℤ
  pub original_height : ℤ
  pub results : List (ModelResult F)

pub data StreamState : Type 0 where
  stopped starting running reconnecting error : StreamState

unfoldable pub stream_state_to_string : StreamState → String
stream_state_to_string stopped = "stopped"
stream_state_to_string starting = "starting"
stream_state_to_string running = "running"
stream_state_to_string reconnecting = "reconnecting"
stream_state_to_string error = "error"

pub record StreamStatus (F : Type 0) : Type 0 where
  pub cam_id : String
  pub rtsp_url : String
  pub status : String
  pub frame_skip : ℤ
  pub models : List (ModelConfig F)
  pub decoded_frames : ℕ
  pub inferred_frames : ℕ
  pub dropped_frames : ℕ
  pub decode_fps : F
  pub infer_fps : F
  pub reconnect_count : ℕ
  pub last_error : String
  pub uptime_seconds : F

pub record DecodedFrame : Type 0 where
  pub cam_id : String
  pub rtsp_url : String
  pub frame_id : ℕ
  pub pts : ℤ
  pub timestamp_ms : ℤ
  pub width : ℤ
  pub height : ℤ
  pub nv12_data : Option (List ℕ)

pub record CachedFrame : Type 0 where
  pub cam_id : String
  pub frame_id : ℕ
  pub timestamp_ms : ℤ
  pub width : ℤ
  pub height : ℤ
  pub jpeg_data : Option (List ℕ)

unfoldable pub jpeg_size : CachedFrame → ℕ
jpeg_size f = elim f.jpeg_data [ none ↦ 0 | some bytes ↦ length bytes ]

pub record InferTask (F : Type 0) : Type 0 where
  pub cam_id : String
  pub rtsp_url : String
  pub frame_id : ℕ
  pub pts : ℤ
  pub timestamp_ms : ℤ
  pub original_width : ℤ
  pub original_height : ℤ
  pub model_path : String
  pub task_name : String
  pub model_type : String
  pub conf_threshold : F
  pub nms_threshold : F
  pub labels : List String
  pub input_data : Option (List ℕ)
  pub input_width : ℤ
  pub input_height : ℤ
  pub aggregator : Option ℕ

-- include/infer_server/common/config.h
pub record ServerConfig : Type 0 where
  pub http_port : ℤ
  pub zmq_endpoint : String
  pub num_infer_workers : ℤ
  pub num_npu_cores : ℤ
  pub decode_queue_size : ℤ
  pub infer_queue_size : ℤ
  pub streams_save_path : String
  pub log_level : String
  pub cache_duration_sec : ℤ
  pub cache_jpeg_quality : ℤ
  pub cache_resize_width : ℤ
  pub cache_resize_height : ℤ
  pub cache_max_memory_mb : ℤ
