-- ===== src/Json/Results.antt =====
-- `to_json` and `from_json` of the structs for results in include/infer_server/common/types.h.
pub mod RoundTrip
use infer_server.Base.{String, List, [], ◌∷◌, Option, none, some, map, ◌>>=◌, ℕ}
use infer_server.Base.Int.{ℤ, pos, negsuc}
use infer_server.Base.Word.{size_of_int}
use infer_server.Types.{BBox, Detection, ModelResult, FrameResult}
use infer_server.Json.{JsonOps, value, get_list}

module _ {F : Type 0} (ops : JsonOps F) where
  open ops use {J, of_string, to_string, of_int, to_int, of_float, to_float, of_array, of_object}

  -- A `uint64_t`
  unfoldable pub to_uint64 : J → Option ℕ
  unfolding size_of_int
  to_uint64 j = do n ← to_int j; some (size_of_int n)

  unfoldable pub bbox_to_json : BBox F → J
  bbox_to_json b = of_object (
      ("x1", of_float b.x1)
      ∷ ("y1", of_float b.y1)
      ∷ ("x2", of_float b.x2)
      ∷ ("y2", of_float b.y2)
      ∷ [])

  unfoldable pub detection_to_json : Detection F → J
  unfolding bbox_to_json
  detection_to_json d = of_object (
      ("class_id", of_int d.class_id)
      ∷ ("class_name", of_string d.class_name)
      ∷ ("confidence", of_float d.confidence)
      ∷ ("bbox", bbox_to_json d.bbox)
      ∷ [])

  unfoldable pub model_result_to_json : ModelResult F → J
  unfolding detection_to_json
  model_result_to_json r = of_object (
      ("task_name", of_string r.task_name)
      ∷ ("model_path", of_string r.model_path)
      ∷ ("inference_time_ms", of_float r.inference_time_ms)
      ∷ ("detections", of_array (map detection_to_json r.detections))
      ∷ [])

  unfoldable pub frame_result_to_json : FrameResult F → J
  unfolding model_result_to_json
  frame_result_to_json r = of_object (
      ("cam_id", of_string r.cam_id)
      ∷ ("rtsp_url", of_string r.rtsp_url)
      ∷ ("frame_id", of_int (pos r.frame_id))
      ∷ ("timestamp_ms", of_int r.timestamp_ms)
      ∷ ("pts", of_int r.pts)
      ∷ ("original_width", of_int r.original_width)
      ∷ ("original_height", of_int r.original_height)
      ∷ ("results", of_array (map model_result_to_json r.results))
      ∷ [])

  -- The default 0.0 is an argument.
  module _ (zero_f : F) where
    unfoldable pub bbox_from_json : J → Option (BBox F)
    unfolding value
    bbox_from_json j = do
      x1 ← value ops to_float "x1" zero_f j
      y1 ← value ops to_float "y1" zero_f j
      x2 ← value ops to_float "x2" zero_f j
      y2 ← value ops to_float "y2" zero_f j
      some (record { x1 = x1; y1 = y1; x2 = x2; y2 = y2 })

    abbrev pub no_bbox : BBox F
    no_bbox = record { x1 = zero_f; y1 = zero_f; x2 = zero_f; y2 = zero_f }

    unfoldable pub detection_from_json : J → Option (Detection F)
    unfolding value bbox_from_json
    detection_from_json j = do
      class_id ← value ops to_int "class_id" (negsuc 0) j
      class_name ← value ops to_string "class_name" "" j
      confidence ← value ops to_float "confidence" zero_f j
      bbox ← value ops bbox_from_json "bbox" no_bbox j
      some (record {
        class_id = class_id;
        class_name = class_name;
        confidence = confidence;
        bbox = bbox;
      })

    unfoldable pub model_result_from_json : J → Option (ModelResult F)
    unfolding value get_list detection_from_json
    model_result_from_json j = do
      task_name ← value ops to_string "task_name" "" j
      model_path ← value ops to_string "model_path" "" j
      inference_time_ms ← value ops to_float "inference_time_ms" zero_f j
      detections ← value ops (get_list ops detection_from_json) "detections" [] j
      some (record {
        task_name = task_name;
        model_path = model_path;
        inference_time_ms = inference_time_ms;
        detections = detections;
      })

    unfoldable pub frame_result_from_json : J → Option (FrameResult F)
    unfolding value get_list to_uint64 model_result_from_json
    frame_result_from_json j = do
      cam_id ← value ops to_string "cam_id" "" j
      rtsp_url ← value ops to_string "rtsp_url" "" j
      frame_id ← value ops to_uint64 "frame_id" 0 j
      timestamp_ms ← value ops to_int "timestamp_ms" (pos 0) j
      pts ← value ops to_int "pts" (pos 0) j
      original_width ← value ops to_int "original_width" (pos 0) j
      original_height ← value ops to_int "original_height" (pos 0) j
      results ← value ops (get_list ops model_result_from_json) "results" [] j
      some (record {
        cam_id = cam_id;
        rtsp_url = rtsp_url;
        frame_id = frame_id;
        timestamp_ms = timestamp_ms;
        pts = pts;
        original_width = original_width;
        original_height = original_height;
        results = results;
      })
