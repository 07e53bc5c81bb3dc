-- ===== src/InferWorker/Tests.antt =====
-- Results of two frames that arrive in turns, and the theorem on them.
use infer_server.Base.{
  ℕ, ◌≡◌, refl, arith, List, [], ◌∷◌, ◌++◌, some, leb, length, take, if◌then◌else◌, String,
  ℕ_discrete,
}
use infer_server.Base.Int.{pos}
use infer_server.Base.Dict.{insert}
use infer_server.Samples.{task}
use infer_server.Types.{InferTask, ModelResult, FrameResult}
use infer_server.FrameResultCollector.{make}
use infer_server.FrameResultCollector.Completion.{with_results}
use infer_server.InferWorker.Aggregation.{Answer, results_for, frames_for, frames_for-make}

abbrev result : String → ModelResult ℕ
result name = record { task_name = name; model_path = name; inference_time_ms = 1; detections = [] }

abbrev base : FrameResult ℕ
base = record {
  cam_id = "a";
  rtsp_url = "rtsp://camera";
  frame_id = 0;
  timestamp_ms = pos 1000;
  pts = pos 40;
  original_width = pos 1920;
  original_height = pos 1080;
  results = [];
}

abbrev for_collector : ℕ → InferTask ℕ
for_collector k = record task { aggregator = some k }

abbrev answers : List (Answer ℕ)
answers =
    (for_collector 3, result "people")
    ∷ (for_collector 4, result "people")
    ∷ (task, result "people")
    ∷ (for_collector 3, result "smoke")
    ∷ []

frames_for-make_example :
    frames_for 3 answers (insert ℕ_discrete 3 (make 2 base) (insert ℕ_discrete 4 (make 2 base) []))
    ≡ (if leb 2 (length (results_for 3 answers))
        then with_results base (base.results ++ take 2 (results_for 3 answers)) ∷ []
        else [])
frames_for-make_example =
    frames_for-make 3 2 base answers (insert ℕ_discrete 4 (make 2 base) []) (omega arith)

results_for-run : results_for 3 answers ≡ result "people" ∷ result "smoke" ∷ []
unfolding results_for ℕ_discrete
results_for-run = refl
