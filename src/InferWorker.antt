-- ===== src/InferWorker.antt =====
-- include/infer_server/inference/infer_worker.h and src/inference/infer_worker.cpp: a worker thread
-- with its contexts. What the runtime and the clock answer is an argument. The collectors that tasks
-- point to are a store by number; what the completion callback receives is part of what a call
-- comes to. The callback is there, as the engine gives one to every worker.
pub mod Branches
pub mod Contexts
pub mod Processing
pub mod Aggregation
mod Tests
use infer_server.Base.{
  ℕ, zero, suc, ◌+◌, String, Bool, true, false, List, [], ◌∷◌, ◌++◌, Option, none, some, ◌==◌,
  if◌then◌else◌, String_discrete, ℕ_discrete,
}
use infer_server.Base.Word.{add64}
use infer_server.Base.Dict.{Dict, find, insert}
use infer_server.Types.{InferTask, FrameResult, ModelResult}
use infer_server.BoundedQueue
use infer_server.BoundedQueue.{BoundedQueue}
use infer_server.FrameResultCollector.{FrameResultCollector, add_result}
use infer_server.ModelManager.{
  ModelManager, ModelInfo, Runtime, NativeCall, create_worker_context, get_model_info,
  get_output_tensor_attrs, release_worker_context,
}
use infer_server.PostProcessor.Float.{FloatOps}
use infer_server.PostProcessor.Yolo.Process.{process}
use infer_server.Types.{Detection}

pub record InferWorker : Type 0 where
  pub worker_id : ℕ
  pub core_mask : ℕ
  pub running : Bool
  pub stop_requested : Bool
  pub processed_count : ℕ
  pub contexts : Dict String ℕ

-- What a task finds outside: the runtime for a context, whether `rknn_inputs_set` and `rknn_run`
-- succeed, the buffers that `rknn_outputs_get` fills if it does, and the time that it took.
pub record TaskWorld (F : Type 0) : Type 0 where
  pub runtime : Runtime F
  pub inputs_set : Bool
  pub runs : Bool
  pub outputs_get : Option (ℕ → ℕ → F)
  pub total_ms : F

abbrev pub Collectors : Type 0 → Type 0
Collectors F = Dict ℕ (FrameResultCollector F)

-- The constructor.
unfoldable pub make : ℕ → ℕ → InferWorker
make worker_id core_mask = record {
  worker_id = worker_id;
  core_mask = core_mask;
  running = false;
  stop_requested = false;
  processed_count = 0;
  contexts = [];
}

unfoldable pub start : InferWorker → InferWorker
start v = if v.running then v else record v { stop_requested = false; running = true }

unfoldable pub release_each : Dict String ℕ → List NativeCall
unfolding release_worker_context
release_each [] = []
release_each ((path, ctx) ∷ contexts) = release_worker_context ctx ++ release_each contexts

unfoldable pub release_all_contexts : InferWorker → InferWorker × List NativeCall
unfolding release_each
release_all_contexts v = (record v { contexts = [] }, release_each v.contexts)

module _ {F : Type 0} where
  unfoldable pub get_or_create_context :
      String → Runtime F → ModelManager F → InferWorker → (ℕ × InferWorker) × List NativeCall
  unfolding find insert create_worker_context
  get_or_create_context model_path w m v = elim (find String_discrete model_path v.contexts) [
    | some ctx ↦ ((ctx, v), [])
    | none ↦
        let made = create_worker_context model_path v.core_mask w m in
        if made.0 == 0 then ((0, v), made.1) else (
          (made.0, record v { contexts = insert String_discrete model_path made.0 v.contexts }),
          made.1,
        )
  ]

  unfoldable pub pre_create_context :
      String → Runtime F → ModelManager F → InferWorker → (Bool × InferWorker) × List NativeCall
  unfolding find insert create_worker_context
  pre_create_context model_path w m v = elim (find String_discrete model_path v.contexts) [
    | some ctx ↦ ((true, v), [])
    | none ↦
        let made = create_worker_context model_path v.core_mask w m in
        if made.0 == 0 then ((false, v), made.1) else (
          (true, record v { contexts = insert String_discrete model_path made.0 v.contexts }),
          made.1,
        )
  ]

  -- Picture data that is there and not empty, of less than 2^32 bytes.
  unfoldable pub has_input : InferTask F → Bool
  has_input task = elim task.input_data [ none ↦ false | some [] ↦ false | some (b ∷ bytes) ↦ true ]

  -- The buffers of the first `n` outputs, from number `i` on.
  unfoldable pub output_ptrs : (ℕ → ℕ → F) → ℕ → ℕ → List (ℕ → F)
  output_ptrs buffers i zero = []
  output_ptrs buffers i (suc n) = buffers i ∷ output_ptrs buffers (suc i) n

  -- The frame of a task that has no aggregator.
  unfoldable pub single_result : InferTask F → ModelResult F → FrameResult F
  single_result task model_result = record {
    cam_id = task.cam_id;
    rtsp_url = task.rtsp_url;
    frame_id = task.frame_id;
    timestamp_ms = task.timestamp_ms;
    pts = task.pts;
    original_width = task.original_width;
    original_height = task.original_height;
    results = model_result ∷ [];
  }

  -- The result goes to the task's collector, if it has one: the collectors and the frame that the
  -- callback receives. A collector lives as long as a task points to it, so it is in the store.
  unfoldable pub aggregate :
      InferTask F → ModelResult F → Collectors F → Collectors F × Option (FrameResult F)
  unfolding single_result find insert add_result
  aggregate task model_result cs = elim task.aggregator [
    | none ↦ (cs, some (single_result task model_result))
    | some number ↦ elim (find ℕ_discrete number cs) [
      | none ↦ (cs, none)
      | some collector ↦
          let added = add_result collector model_result in
          (insert ℕ_discrete number added.0 cs, added.1)
    ]
  ]

-- `join` waits for the rounds of the thread that are under way: they come before.
unfoldable pub stop : InferWorker → InferWorker × List NativeCall
unfolding release_all_contexts
stop v =
    if v.running
    then release_all_contexts (record v { stop_requested = true; running = false })
    else (v, [])

-- `one` is the 1.0f of a scale that is not set.
module _ (ops : FloatOps) (sort : List (Detection ops.F) → List (Detection ops.F)) where
  open ops use {F, one}

  -- The detections, by `PostProcessor::process`.
  unfoldable pub model_result : InferTask F → ModelInfo F → (ℕ → ℕ → F) → F → ModelResult F
  unfolding output_ptrs get_output_tensor_attrs process
  model_result task info buffers total_ms = record {
    task_name = task.task_name;
    model_path = task.model_path;
    inference_time_ms = total_ms;
    detections =
        process ops sort task.input_width task.input_height task.original_width task.original_height
          task.conf_threshold task.nms_threshold task.labels task.model_type
          (output_ptrs buffers 0 info.io_num.n_output) (get_output_tensor_attrs one info);
  }

  -- From the model's context on: the model's result, unless something fails.
  unfoldable pub infer : TaskWorld F → ModelManager F → InferTask F → Option (ModelResult F)
  unfolding get_model_info has_input model_result
  infer w m task = elim (get_model_info task.model_path m) [
    | none ↦ none
    | some info ↦
        if has_input task
        then if w.inputs_set
          then if w.runs
            then elim w.outputs_get [
              | none ↦ none
              | some buffers ↦ some (model_result task info buffers w.total_ms)
            ]
            else none
          else none
        else none
  ]

  -- The worker, the collectors, the frame for the callback, and the calls at the runtime.
  unfoldable pub process_task :
      TaskWorld F
      → ModelManager F
      → InferTask F
      → Collectors F
      → InferWorker
      → (InferWorker × Collectors F) × Option (FrameResult F) × List NativeCall
  unfolding get_or_create_context infer aggregate
  process_task w m task cs v =
      let got = get_or_create_context task.model_path w.runtime m v in
      let v' = got.0.1 in
      if got.0.0 == 0 then ((v', cs), none, got.1) else elim (infer w m task) [
        | none ↦ ((v', cs), none, got.1)
        | some result ↦ let done = aggregate task result cs in ((v', done.0), done.1, got.1)
      ]

  -- What follows a `pop` in `run`.
  unfoldable pub process_popped :
      TaskWorld F
      → ModelManager F
      → Option (InferTask F)
      → Collectors F
      → InferWorker
      → (InferWorker × Collectors F) × Option (FrameResult F) × List NativeCall
  unfolding process_task add64
  process_popped w m none cs v = ((v, cs), none, [])
  process_popped w m (some task) cs v =
      let done = process_task w m task cs v in
      let v' = done.0.0 in
      ((record v' { processed_count = add64 v'.processed_count 1 }, done.0.1), done.1, done.2)
