-- ===== src/Json/Results/RoundTrip.antt =====
-- What is written of a result is read again.
use infer_server.Base.{◌≡◌, refl, ap, [], some, String_discrete, ◌<◌, arith, ℕ}
use infer_server.Base.Int.{pos, negsuc}
use infer_server.Base.Dict.{find}
use infer_server.Base.Word.{word, size_of_int}
use infer_server.Types.{BBox, Detection, ModelResult, FrameResult}
use infer_server.Json.{JsonOps, JsonLaws, get_list}
use infer_server.Json.RoundTrip.{value-there, string_there, int_there, float_there, get_list-map}
use infer_server.Json.Results.{
  to_uint64, bbox_to_json, bbox_from_json, detection_to_json, detection_from_json, no_bbox,
  model_result_to_json, model_result_from_json, frame_result_to_json, frame_result_from_json,
}

module _ {F : Type 0} (ops : JsonOps F) (laws : JsonLaws ops) (zero_f : F) where
  bbox_from_json-bbox_to_json :
      (b : BBox F) → bbox_from_json ops zero_f (bbox_to_json ops b) ≡ some b
  unfolding bbox_from_json bbox_to_json find String_discrete
  bbox_from_json-bbox_to_json b =
      rw
        (
          float_there ops laws "x1" zero_f b.x1 _ refl,
          float_there ops laws "y1" zero_f b.y1 _ refl,
          float_there ops laws "x2" zero_f b.x2 _ refl,
          float_there ops laws "y2" zero_f b.y2 _ refl,
        )
        refl

  detection_from_json-detection_to_json :
      (d : Detection F) → detection_from_json ops zero_f (detection_to_json ops d) ≡ some d
  unfolding detection_from_json detection_to_json find String_discrete
  detection_from_json-detection_to_json d =
      rw
        (
          int_there ops laws "class_id" (negsuc 0) d.class_id _ refl,
          string_there ops laws "class_name" "" d.class_name _ refl,
          float_there ops laws "confidence" zero_f d.confidence _ refl,
          value-there ops laws (bbox_from_json ops zero_f) "bbox" (no_bbox ops zero_f) d.bbox _ refl
              (bbox_from_json-bbox_to_json d.bbox),
        )
        refl

  model_result_from_json-model_result_to_json :
      (r : ModelResult F) → model_result_from_json ops zero_f (model_result_to_json ops r) ≡ some r
  unfolding model_result_from_json model_result_to_json find String_discrete
  model_result_from_json-model_result_to_json r =
      rw
        (
          string_there ops laws "task_name" "" r.task_name _ refl,
          string_there ops laws "model_path" "" r.model_path _ refl,
          float_there ops laws "inference_time_ms" zero_f r.inference_time_ms _ refl,
          value-there ops laws (get_list ops (detection_from_json ops zero_f)) "detections" []
              r.detections _ refl
              (get_list-map ops laws (detection_to_json ops) (detection_from_json ops zero_f)
                detection_from_json-detection_to_json r.detections),
        )
        refl

  pub to_uint64-of_int : (n : ℕ) → n < word → to_uint64 ops (ops.of_int (pos n)) ≡ some n
  unfolding to_uint64 size_of_int
  to_uint64-of_int n small = rw (laws.int_law (pos n)) (ap some (omega (arith, small)))

  -- The number of the frame is one of 64 bits.
  pub frame_result_from_json-frame_result_to_json :
      (r : FrameResult F)
      → r.frame_id < word
      → frame_result_from_json ops zero_f (frame_result_to_json ops r) ≡ some r
  unfolding frame_result_from_json frame_result_to_json find String_discrete
  frame_result_from_json-frame_result_to_json r small =
      rw
        (
          string_there ops laws "cam_id" "" r.cam_id _ refl,
          string_there ops laws "rtsp_url" "" r.rtsp_url _ refl,
          value-there ops laws (to_uint64 ops) "frame_id" 0 r.frame_id _ refl
              (to_uint64-of_int r.frame_id small),
          int_there ops laws "timestamp_ms" (pos 0) r.timestamp_ms _ refl,
          int_there ops laws "pts" (pos 0) r.pts _ refl,
          int_there ops laws "original_width" (pos 0) r.original_width _ refl,
          int_there ops laws "original_height" (pos 0) r.original_height _ refl,
          value-there ops laws (get_list ops (model_result_from_json ops zero_f)) "results" []
              r.results _ refl
              (get_list-map ops laws (model_result_to_json ops) (model_result_from_json ops zero_f)
                model_result_from_json-model_result_to_json r.results),
        )
        refl
