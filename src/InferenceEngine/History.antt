-- ===== src/InferenceEngine/History.antt =====
-- Histories of the engine: its calls, rounds of its workers, and collectors that the decode threads
-- make, in the order in which they take effect.
use infer_server.Base.{ℕ, Bool, List, [], ◌∷◌, ℕ_discrete}
use infer_server.Base.Dict.{insert}
use infer_server.Types.{ModelConfig, InferTask, Detection}
use infer_server.FrameResultCollector.{FrameResultCollector}
use infer_server.PostProcessor.Float.{FloatOps}
use infer_server.InferenceEngine.{
  InferenceEngine, Round, LoadWorld, init, load_one, submit, work, shutdown, set_result_callback,
}

-- `loads` is one round of the loop of `load_models`.
pub data Call (F : Type 0) : Type 0 where
  inits : (ℕ → ℕ) → Bool → Call F
  loads : LoadWorld F → ModelConfig F → Call F
  collects : ℕ → FrameResultCollector F → Call F
  submits : InferTask F → Call F
  works : Round F → Call F
  calls_back : Call F
  shuts_down : (ℕ → List (Round F)) → Bool → Call F

module _ (ops : FloatOps) (sort : List (Detection ops.F) → List (Detection ops.F)) where
  open ops use {F}

  unfoldable pub step : Call F → InferenceEngine F → InferenceEngine F
  unfolding init load_one submit work shutdown insert set_result_callback
  step (inits beyond binds) e = (init beyond binds e).0
  step (loads w mc) e = (load_one w mc e).0
  step (collects number collector) e = record e {
    collectors = insert ℕ_discrete number collector e.collectors;
  }
  step (submits task) e = (submit task e).0
  step (works round) e = work ops sort round e
  step calls_back e = set_result_callback e
  step (shuts_down rounds closes) e = shutdown ops sort rounds closes e

  unfoldable pub run : List (Call F) → InferenceEngine F → InferenceEngine F
  unfolding step
  run [] e = e
  run (call ∷ calls) e = run calls (step call e)
