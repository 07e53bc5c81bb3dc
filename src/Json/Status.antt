-- ===== src/Json/Status.antt =====
-- `to_json` and `from_json` of StreamStatus in include/infer_server/common/types.h.
use infer_server.Base.{
  ◌≡◌, refl, ap, ◌<◌, ◌%◌, ◌^◌, arith, [], ◌∷◌, Option, some, map, ◌>>=◌, ℕ, String_discrete,
}
use infer_server.Base.Dict.{find}
use infer_server.Base.Int.{pos}
use infer_server.Base.Word.{word}
use infer_server.Types.{StreamStatus}
use infer_server.Json.{JsonOps, JsonLaws, value, get_list}
use infer_server.Json.Configs.{model_to_json, model_from_json}
use infer_server.Json.RoundTrip.{
  value-there, string_there, int_there, float_there, get_list-map, model_from_json-model_to_json,
}
use infer_server.Json.Results.{to_uint64}
use infer_server.Json.Results.RoundTrip.{to_uint64-of_int}

module _ {F : Type 0} (ops : JsonOps F) where
  open ops use {J, of_string, to_string, of_int, to_int, of_float, to_float, of_array, of_object}

  -- A `uint32_t`
  unfoldable to_uint32 : J → Option ℕ
  unfolding to_uint64
  to_uint32 j = do n ← to_uint64 ops j; some (n % 2 ^ 32)

  unfoldable stream_status_to_json : StreamStatus F → J
  unfolding model_to_json
  stream_status_to_json s = of_object (
      ("cam_id", of_string s.cam_id)
      ∷ ("rtsp_url", of_string s.rtsp_url)
      ∷ ("status", of_string s.status)
      ∷ ("frame_skip", of_int s.frame_skip)
      ∷ ("models", of_array (map (model_to_json ops) s.models))
      ∷ ("decoded_frames", of_int (pos s.decoded_frames))
      ∷ ("inferred_frames", of_int (pos s.inferred_frames))
      ∷ ("dropped_frames", of_int (pos s.dropped_frames))
      ∷ ("decode_fps", of_float s.decode_fps)
      ∷ ("infer_fps", of_float s.infer_fps)
      ∷ ("reconnect_count", of_int (pos s.reconnect_count))
      ∷ ("last_error", of_string s.last_error)
      ∷ ("uptime_seconds", of_float s.uptime_seconds)
      ∷ [])

  -- The defaults of the thresholds and 0.0 are arguments.
  unfoldable stream_status_from_json : F → F → F → J → Option (StreamStatus F)
  unfolding value get_list model_from_json to_uint64 to_uint32
  stream_status_from_json conf nms zero_f j = do
    cam_id ← value ops to_string "cam_id" "" j
    rtsp_url ← value ops to_string "rtsp_url" "" j
    status ← value ops to_string "status" "stopped" j
    frame_skip ← value ops to_int "frame_skip" (pos 0) j
    models ← value ops (get_list ops (model_from_json ops conf nms)) "models" [] j
    decoded_frames ← value ops (to_uint64 ops) "decoded_frames" 0 j
    inferred_frames ← value ops (to_uint64 ops) "inferred_frames" 0 j
    dropped_frames ← value ops (to_uint64 ops) "dropped_frames" 0 j
    decode_fps ← value ops to_float "decode_fps" zero_f j
    infer_fps ← value ops to_float "infer_fps" zero_f j
    reconnect_count ← value ops to_uint32 "reconnect_count" 0 j
    last_error ← value ops to_string "last_error" "" j
    uptime_seconds ← value ops to_float "uptime_seconds" zero_f j
    some (record {
      cam_id = cam_id;
      rtsp_url = rtsp_url;
      status = status;
      frame_skip = frame_skip;
      models = models;
      decoded_frames = decoded_frames;
      inferred_frames = inferred_frames;
      dropped_frames = dropped_frames;
      decode_fps = decode_fps;
      infer_fps = infer_fps;
      reconnect_count = reconnect_count;
      last_error = last_error;
      uptime_seconds = uptime_seconds;
    })

  module _ (laws : JsonLaws ops) (conf nms zero_f : F) where
    to_uint32-of_int : (n : ℕ) → n < 2 ^ 32 → to_uint32 (of_int (pos n)) ≡ some n
    unfolding to_uint32
    to_uint32-of_int n small =
        rw (to_uint64-of_int ops laws zero_f n (omega (arith, small)))
          (ap some (omega (arith, small)))

    -- The counters are those of their widths.
    stream_status_from_json-stream_status_to_json :
        (s : StreamStatus F)
        → s.decoded_frames < word
        → s.inferred_frames < word
        → s.dropped_frames < word
        → s.reconnect_count < 2 ^ 32
        → stream_status_from_json conf nms zero_f (stream_status_to_json s) ≡ some s
    unfolding stream_status_from_json stream_status_to_json find String_discrete
    stream_status_from_json-stream_status_to_json s d i p r =
        rw
          (
            string_there ops laws "cam_id" "" s.cam_id _ refl,
            string_there ops laws "rtsp_url" "" s.rtsp_url _ refl,
            string_there ops laws "status" "stopped" s.status _ refl,
            int_there ops laws "frame_skip" (pos 0) s.frame_skip _ refl,
            value-there ops laws (get_list ops (model_from_json ops conf nms)) "models" [] s.models
                _ refl
                (get_list-map ops laws (model_to_json ops) (model_from_json ops conf nms)
                  (model_from_json-model_to_json ops laws conf nms) s.models),
            value-there ops laws (to_uint64 ops) "decoded_frames" 0 s.decoded_frames _ refl
                (to_uint64-of_int ops laws zero_f s.decoded_frames d),
            value-there ops laws (to_uint64 ops) "inferred_frames" 0 s.inferred_frames _ refl
                (to_uint64-of_int ops laws zero_f s.inferred_frames i),
            value-there ops laws (to_uint64 ops) "dropped_frames" 0 s.dropped_frames _ refl
                (to_uint64-of_int ops laws zero_f s.dropped_frames p),
            float_there ops laws "decode_fps" zero_f s.decode_fps _ refl,
            float_there ops laws "infer_fps" zero_f s.infer_fps _ refl,
            value-there ops laws to_uint32 "reconnect_count" 0 s.reconnect_count _ refl
                (to_uint32-of_int s.reconnect_count r),
            string_there ops laws "last_error" "" s.last_error _ refl,
            float_there ops laws "uptime_seconds" zero_f s.uptime_seconds _ refl,
          )
          refl
