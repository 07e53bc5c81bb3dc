-- ===== src/FrameResultCollector/Tests.antt =====
-- Runs of the collector, and its theorems at concrete inputs.
use infer_server.Base.{ℕ, ◌≡◌, String, List, [], ◌∷◌, arith}
use infer_server.Base.Int.{pos}
use infer_server.Types.{ModelResult, FrameResult}
use infer_server.FrameResultCollector.{make}
use infer_server.FrameResultCollector.Completion.{published, with_results, published-make}

abbrev base : FrameResult ℕ
base = record {
  cam_id = "cam0";
  rtsp_url = "rtsp://cam0";
  frame_id = 7;
  timestamp_ms = pos 1000;
  pts = pos 90000;
  original_width = pos 1920;
  original_height = pos 1080;
  results = [];
}

abbrev result_of : String → ModelResult ℕ
result_of task = record {
  task_name = task;
  model_path = "a.rknn";
  inference_time_ms = 12;
  detections = [];
}

abbrev three : List (ModelResult ℕ)
three = result_of "smoking" ∷ result_of "phone" ∷ result_of "late" ∷ []

published-make_example :
    published (make 2 base) three
    ≡ with_results base (result_of "smoking" ∷ result_of "phone" ∷ []) ∷ []
published-make_example = published-make 2 base three (omega arith)
