-- ===== src/Json/RoundTrip.antt =====
-- What is written of a configuration is read again.
use infer_server.Base.{◌≡◌, refl, String, List, [], ◌∷◌, Option, some, map, String_discrete}
use infer_server.Base.Int.{ℤ, pos}
use infer_server.Base.Dict.{Dict, find}
use infer_server.Types.{ModelConfig, StreamConfig, ServerConfig}
use infer_server.Json.{JsonOps, JsonLaws, value, get_list, get_each}
use infer_server.Json.Configs.{
  model_to_json, model_from_json, stream_to_json, stream_from_json, server_to_json,
  server_from_json,
}

module _ {F : Type 0} (ops : JsonOps F) (laws : JsonLaws ops) where
  open ops use {J, of_string, to_string, of_int, to_int, of_float, to_float, of_array, of_object}

  -- A member that is there is read, whatever the default is.
  pub value-there :
      {A : Type 0} (get : J → Option A) (key : String) (default x : A) (fields : Dict String J)
      {v : J}
      → find String_discrete key fields ≡ some v
      → get v ≡ some x
      → value ops get key default (of_object fields) ≡ some x
  unfolding value
  value-there get key default x fields e g = rw (laws.object_law key fields, e) g

  pub string_there :
      (key default s : String) (fields : Dict String J)
      → find String_discrete key fields ≡ some (of_string s)
      → value ops to_string key default (of_object fields) ≡ some s
  string_there key default s fields e =
      value-there to_string key default s fields e (laws.string_law s)

  pub int_there :
      (key : String) (default n : ℤ) (fields : Dict String J)
      → find String_discrete key fields ≡ some (of_int n)
      → value ops to_int key default (of_object fields) ≡ some n
  int_there key default n fields e = value-there to_int key default n fields e (laws.int_law n)

  pub float_there :
      (key : String) (default x : F) (fields : Dict String J)
      → find String_discrete key fields ≡ some (of_float x)
      → value ops to_float key default (of_object fields) ≡ some x
  float_there key default x fields e =
      value-there to_float key default x fields e (laws.float_law x)

  -- A list is read again if each of its elements is.
  pub get_list-map :
      {A : Type 0} (write : A → J) (get : J → Option A)
      → ((x : A) → get (write x) ≡ some x)
      → (xs : List A) → get_list ops get (of_array (map write xs)) ≡ some xs
  unfolding get_list get_each
  get_list-map {A} write get h xs = rw (laws.array_law (map write xs)) (go xs)
    where
      go : (xs : List A) → get_each ops get (map write xs) ≡ some xs
      go [] = refl
      go (x ∷ xs) = rw (h x, go xs) refl

  pub model_from_json-model_to_json :
      (conf nms : F) (c : ModelConfig F)
      → model_from_json ops conf nms (model_to_json ops c) ≡ some c
  unfolding model_from_json model_to_json find String_discrete
  model_from_json-model_to_json conf nms c =
      rw
        (
          string_there "model_path" "" c.model_path _ refl,
          string_there "task_name" "" c.task_name _ refl,
          string_there "model_type" "yolov5" c.model_type _ refl,
          int_there "input_width" (pos 640) c.input_width _ refl,
          int_there "input_height" (pos 640) c.input_height _ refl,
          float_there "conf_threshold" conf c.conf_threshold _ refl,
          float_there "nms_threshold" nms c.nms_threshold _ refl,
          string_there "labels_file" "" c.labels_file _ refl,
        )
        refl

  pub stream_from_json-stream_to_json :
      (conf nms : F) (c : StreamConfig F)
      → stream_from_json ops conf nms (stream_to_json ops c) ≡ some c
  unfolding stream_from_json stream_to_json find String_discrete
  stream_from_json-stream_to_json conf nms c =
      rw
        (
          string_there "cam_id" "" c.cam_id _ refl,
          string_there "rtsp_url" "" c.rtsp_url _ refl,
          int_there "frame_skip" (pos 5) c.frame_skip _ refl,
          value-there (get_list ops (model_from_json ops conf nms)) "models" [] c.models _ refl (
              get_list-map (model_to_json ops) (model_from_json ops conf nms)
                (model_from_json-model_to_json conf nms) c.models),
        )
        refl

  pub server_from_json-server_to_json :
      (c : ServerConfig) → server_from_json ops (server_to_json ops c) ≡ some c
  unfolding server_from_json server_to_json find String_discrete
  server_from_json-server_to_json c =
      rw
        (
          int_there "http_port" (pos 8080) c.http_port _ refl,
          string_there "zmq_endpoint" "tcp://0.0.0.0:5555" c.zmq_endpoint _ refl,
          int_there "num_infer_workers" (pos 3) c.num_infer_workers _ refl,
          int_there "num_npu_cores" (pos 2) c.num_npu_cores _ refl,
          int_there "decode_queue_size" (pos 2) c.decode_queue_size _ refl,
          int_there "infer_queue_size" (pos 18) c.infer_queue_size _ refl,
          string_there "streams_save_path" "/etc/infer-server/streams.json" c.streams_save_path _
              refl,
          string_there "log_level" "info" c.log_level _ refl,
          int_there "cache_duration_sec" (pos 5) c.cache_duration_sec _ refl,
          int_there "cache_jpeg_quality" (pos 75) c.cache_jpeg_quality _ refl,
          int_there "cache_resize_width" (pos 640) c.cache_resize_width _ refl,
          int_there "cache_resize_height" (pos 0) c.cache_resize_height _ refl,
          int_there "cache_max_memory_mb" (pos 64) c.cache_max_memory_mb _ refl,
        )
        refl
