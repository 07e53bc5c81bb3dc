-- ===== src/Samples.antt =====
-- Data with which the tests of several modules run.
use infer_server.Base.{ℕ, suc, ◌+◌, ◌-◌, ◌*◌, ◌/◌, true, String, [], ◌∷◌, none, some, ltb}
use infer_server.Base.Int.{pos, pos_part}
use infer_server.Types.{StreamConfig, ModelConfig, DecodedFrame, InferTask, ServerConfig}
use infer_server.ImageCache
use infer_server.PostProcessor.Float.{FloatOps}
use infer_server.StreamManager.{Answers, Devices}
use infer_server.StreamManager.Manager.{StreamManager, World}

-- A picture can be made for the wider models only.
abbrev pub devices : Devices
devices = record {
  has_engine = true;
  has_cache = true;
  nv12_to_rgb_resize =
      λ nv12 w h new_w new_h. elim new_w [ pos (suc n) ↦ some (7 ∷ []) | _ ↦ none ];
  encode = λ rgb w h quality. 1 ∷ 2 ∷ [];
}

abbrev pub server : ServerConfig
server = record {
  http_port = pos 8080;
  zmq_endpoint = "tcp://0.0.0.0:5555";
  num_infer_workers = pos 3;
  num_npu_cores = pos 2;
  decode_queue_size = pos 2;
  infer_queue_size = pos 18;
  streams_save_path = "streams.json";
  log_level = "info";
  cache_duration_sec = pos 5;
  cache_jpeg_quality = pos 75;
  cache_resize_width = pos 640;
  cache_resize_height = pos 0;
  cache_max_memory_mb = pos 64;
}

abbrev pub model : String → ℕ → ModelConfig ℕ
model name width = record {
  model_path = name;
  task_name = name;
  model_type = "yolov8";
  input_width = pos width;
  input_height = pos 640;
  conf_threshold = 1;
  nms_threshold = 1;
  labels_file = "";
}

abbrev pub camera : String → StreamConfig ℕ
camera name = record {
  cam_id = name;
  rtsp_url = "rtsp://camera";
  frame_skip = pos 2;
  models = model "people" 640 ∷ model "smoke" 0 ∷ [];
}

abbrev pub frame : DecodedFrame
frame = record {
  cam_id = "a";
  rtsp_url = "rtsp://camera";
  frame_id = 0;
  pts = pos 40;
  timestamp_ms = pos 1000;
  width = pos 1920;
  height = pos 1080;
  nv12_data = some (9 ∷ []);
}

abbrev pub answers : Answers
answers = record { open_size = some (pos 1920, pos 1080); skipped = true; frame = some frame }

abbrev pub world : World
world = record {
  now = 3;
  files = record { lines = λ path. none; text = λ line. "" };
  saves = true;
  encoder_valid = true;
  answers = answers;
}

abbrev pub no_streams : StreamManager ℕ
no_streams = record {
  config = server;
  streams = [];
  cache = ImageCache.make (pos 5) (pos 64);
  loaded = [];
  saved = [];
}

-- Numbers in halves, not below zero.
abbrev pub halves : FloatOps
halves = record {
  F = ℕ;
  zero_f = 0;
  half = 1;
  one = 2;
  two = 4;
  minus_one = 0;
  of_int = λ i. 2 * pos_part i;
  neg = λ a. 0;
  add = λ a b. a + b;
  sub = λ a b. a - b;
  mul = λ a b. a * b / 2;
  div = λ a b. 2 * a / b;
  exp = λ a. 2 + a;
  pow = λ a b. a * a / 2;
  lt = ltb;
}

abbrev pub task : InferTask ℕ
task = record {
  cam_id = "a";
  rtsp_url = "rtsp://camera";
  frame_id = 0;
  pts = pos 40;
  timestamp_ms = pos 1000;
  original_width = pos 1920;
  original_height = pos 1080;
  model_path = "people";
  task_name = "people";
  model_type = "yolov8";
  conf_threshold = 1;
  nms_threshold = 1;
  labels = [];
  input_data = some (7 ∷ []);
  input_width = pos 640;
  input_height = pos 640;
  aggregator = none;
}
