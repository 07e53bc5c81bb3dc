-- ===== src/FrameResultCollector.antt =====
-- include/infer_server/inference/frame_result_collector.h: the collector that joins the results of
-- the models that run on one frame. `add_result` holds the collector's mutex, so the calls of the
-- worker threads come one after the other, in some order. The counter, an `int`, counts from 0 and
-- is taken as a natural number.
pub mod Completion
mod Tests
use infer_server.Base.{
  ℕ, suc, ◌+◌, Bool, List, [], ◌∷◌, ◌++◌, Option, none, some, ◌==◌, leb, if◌then◌else◌,
}
use infer_server.Types.{ModelResult, FrameResult}

pub record FrameResultCollector (F : Type 0) : Type 0 where
  pub total_models : ℕ
  pub result : FrameResult F
  pub completed : ℕ

module _ {F : Type 0} where
  unfoldable pub make : ℕ → FrameResult F → FrameResultCollector F
  make total_models base_result = record {
    total_models = total_models;
    result = base_result;
    completed = 0;
  }

  unfoldable pub add_result :
      FrameResultCollector F → ModelResult F → FrameResultCollector F × Option (FrameResult F)
  add_result c model_result =
      let result = record (c.result) { results = c.result.results ++ model_result ∷ [] } in
      let completed = c.completed + 1 in
      let c' = record c { result = result; completed = completed } in
      if completed == c.total_models then (c', some result) else (c', none)

  unfoldable pub is_complete : FrameResultCollector F → Bool
  is_complete c = leb c.total_models c.completed
