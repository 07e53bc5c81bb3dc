-- ===== src/Json/Configs.antt =====
-- `to_json` and `from_json` of the configuration structs.
use infer_server.Base.{[], ◌∷◌, Option, some, map, ◌>>=◌}
use infer_server.Base.Int.{pos}
use infer_server.Types.{ModelConfig, StreamConfig, ServerConfig}
use infer_server.Json.{JsonOps, value, get_list}

module _ {F : Type 0} (ops : JsonOps F) where
  open ops use {J, of_string, to_string, of_int, to_int, of_float, to_float, of_array, of_object}

  unfoldable pub model_to_json : ModelConfig F → J
  model_to_json c = of_object (
      ("model_path", of_string c.model_path)
      ∷ ("task_name", of_string c.task_name)
      ∷ ("model_type", of_string c.model_type)
      ∷ ("input_width", of_int c.input_width)
      ∷ ("input_height", of_int c.input_height)
      ∷ ("conf_threshold", of_float c.conf_threshold)
      ∷ ("nms_threshold", of_float c.nms_threshold)
      ∷ ("labels_file", of_string c.labels_file)
      ∷ [])

  -- The defaults 0.25f and 0.45f are arguments.
  unfoldable pub model_from_json : F → F → J → Option (ModelConfig F)
  unfolding value
  model_from_json conf nms j = do
    model_path ← value ops to_string "model_path" "" j
    task_name ← value ops to_string "task_name" "" j
    model_type ← value ops to_string "model_type" "yolov5" j
    input_width ← value ops to_int "input_width" (pos 640) j
    input_height ← value ops to_int "input_height" (pos 640) j
    conf_threshold ← value ops to_float "conf_threshold" conf j
    nms_threshold ← value ops to_float "nms_threshold" nms j
    labels_file ← value ops to_string "labels_file" "" j
    some (record {
      model_path = model_path;
      task_name = task_name;
      model_type = model_type;
      input_width = input_width;
      input_height = input_height;
      conf_threshold = conf_threshold;
      nms_threshold = nms_threshold;
      labels_file = labels_file;
    })

  unfoldable pub stream_to_json : StreamConfig F → J
  unfolding model_to_json
  stream_to_json c = of_object (
      ("cam_id", of_string c.cam_id)
      ∷ ("rtsp_url", of_string c.rtsp_url)
      ∷ ("frame_skip", of_int c.frame_skip)
      ∷ ("models", of_array (map model_to_json c.models))
      ∷ [])

  unfoldable pub stream_from_json : F → F → J → Option (StreamConfig F)
  unfolding value get_list model_from_json
  stream_from_json conf nms j = do
    cam_id ← value ops to_string "cam_id" "" j
    rtsp_url ← value ops to_string "rtsp_url" "" j
    frame_skip ← value ops to_int "frame_skip" (pos 5) j
    models ← value ops (get_list ops (model_from_json conf nms)) "models" [] j
    some (record { cam_id = cam_id; rtsp_url = rtsp_url; frame_skip = frame_skip; models = models })

  unfoldable pub server_to_json : ServerConfig → J
  server_to_json c = of_object (
      ("http_port", of_int c.http_port)
      ∷ ("zmq_endpoint", of_string c.zmq_endpoint)
      ∷ ("num_infer_workers", of_int c.num_infer_workers)
      ∷ ("num_npu_cores", of_int c.num_npu_cores)
      ∷ ("decode_queue_size", of_int c.decode_queue_size)
      ∷ ("infer_queue_size", of_int c.infer_queue_size)
      ∷ ("streams_save_path", of_string c.streams_save_path)
      ∷ ("log_level", of_string c.log_level)
      ∷ ("cache_duration_sec", of_int c.cache_duration_sec)
      ∷ ("cache_jpeg_quality", of_int c.cache_jpeg_quality)
      ∷ ("cache_resize_width", of_int c.cache_resize_width)
      ∷ ("cache_resize_height", of_int c.cache_resize_height)
      ∷ ("cache_max_memory_mb", of_int c.cache_max_memory_mb)
      ∷ [])

  unfoldable pub server_from_json : J → Option ServerConfig
  unfolding value
  server_from_json j = do
    http_port ← value ops to_int "http_port" (pos 8080) j
    zmq_endpoint ← value ops to_string "zmq_endpoint" "tcp://0.0.0.0:5555" j
    num_infer_workers ← value ops to_int "num_infer_workers" (pos 3) j
    num_npu_cores ← value ops to_int "num_npu_cores" (pos 2) j
    decode_queue_size ← value ops to_int "decode_queue_size" (pos 2) j
    infer_queue_size ← value ops to_int "infer_queue_size" (pos 18) j
    streams_save_path ← value ops to_string "streams_save_path" "/etc/infer-server/streams.json" j
    log_level ← value ops to_string "log_level" "info" j
    cache_duration_sec ← value ops to_int "cache_duration_sec" (pos 5) j
    cache_jpeg_quality ← value ops to_int "cache_jpeg_quality" (pos 75) j
    cache_resize_width ← value ops to_int "cache_resize_width" (pos 640) j
    cache_resize_height ← value ops to_int "cache_resize_height" (pos 0) j
    cache_max_memory_mb ← value ops to_int "cache_max_memory_mb" (pos 64) j
    some (record {
      http_port = http_port;
      zmq_endpoint = zmq_endpoint;
      num_infer_workers = num_infer_workers;
      num_npu_cores = num_npu_cores;
      decode_queue_size = decode_queue_size;
      infer_queue_size = infer_queue_size;
      streams_save_path = streams_save_path;
      log_level = log_level;
      cache_duration_sec = cache_duration_sec;
      cache_jpeg_quality = cache_jpeg_quality;
      cache_resize_width = cache_resize_width;
      cache_resize_height = cache_resize_height;
      cache_max_memory_mb = cache_max_memory_mb;
    })
