-- ===== src/InferWorker/Processing.antt =====
-- What a worker keeps while it makes contexts and processes tasks.
use infer_server.Base.{
  ◌+◌, ◌%◌, arith, ◌≡◌, refl, inl, inr, String, List, Option, none, some, ◌==◌, Option-cases,
  Bool-cases, String_discrete,
}
use infer_server.Base.Word.{word, add64}
use infer_server.Base.Dict.{find}
use infer_server.Types.{InferTask, Detection}
use infer_server.ModelManager.{ModelManager, Runtime, create_worker_context}
use infer_server.PostProcessor.Float.{FloatOps}
use infer_server.InferWorker.{
  InferWorker, TaskWorld, Collectors, get_or_create_context, pre_create_context, process_task,
  process_popped, infer,
}
use infer_server.InferWorker.Branches.{
  get_or_create_context-there, get_or_create_context-failed, get_or_create_context-made,
  pre_create_context-there, pre_create_context-failed, pre_create_context-made,
  process_task-unequipped, process_task-failed, process_task-done,
}

-- The flag and the counter of a worker.
abbrev pub Same : InferWorker → InferWorker → Type 0
Same v' v = (v'.running ≡ v.running) × (v'.processed_count ≡ v.processed_count)

module _ {F : Type 0} (path : String) (w : Runtime F) (m : ModelManager F) (v : InferWorker) where
  get_or_create_context-Same : Same (get_or_create_context path w m v).0.1 v
  get_or_create_context-Same = elim (Option-cases (find String_discrete path v.contexts)) [
    | inr (ctx, e) ↦ rw (get_or_create_context-there path w m v e) (refl, refl)
    | inl e ↦ elim (Bool-cases ((create_worker_context path v.core_mask w m).0 == 0)) [
      | inl z ↦ rw (get_or_create_context-failed path w m v e z) (refl, refl)
      | inr z ↦ rw (get_or_create_context-made path w m v e z) (refl, refl)
    ]
  ]

  pub pre_create_context-Same : Same (pre_create_context path w m v).0.1 v
  pre_create_context-Same = elim (Option-cases (find String_discrete path v.contexts)) [
    | inr (ctx, e) ↦ rw (pre_create_context-there path w m v e) (refl, refl)
    | inl e ↦ elim (Bool-cases ((create_worker_context path v.core_mask w m).0 == 0)) [
      | inl z ↦ rw (pre_create_context-failed path w m v e z) (refl, refl)
      | inr z ↦ rw (pre_create_context-made path w m v e z) (refl, refl)
    ]
  ]

module _ (ops : FloatOps) (sort : List (Detection ops.F) → List (Detection ops.F))
    (w : TaskWorld ops.F) (m : ModelManager ops.F) (cs : Collectors ops.F) (v : InferWorker) where
  pub process_task-Same :
      (task : InferTask ops.F) → Same (process_task ops sort w m task cs v).0.0 v
  process_task-Same task =
      let h = get_or_create_context-Same task.model_path w.runtime m v in
      elim (Bool-cases ((get_or_create_context task.model_path w.runtime m v).0.0 == 0)) [
        | inl z ↦ rw (process_task-unequipped ops sort w m task cs v z) h
        | inr z ↦ elim (Option-cases (infer ops sort w m task)) [
          | inl e ↦ rw (process_task-failed ops sort w m task cs v z e) h
          | inr (result, e) ↦ rw (process_task-done ops sort w m task cs v z e) h
        ]
      ]

  pub process_popped-running :
      (popped : Option (InferTask ops.F))
      → (process_popped ops sort w m popped cs v).0.0.running ≡ v.running
  unfolding process_popped
  process_popped-running none = refl
  process_popped-running (some task) = (process_task-Same task).0

  -- What a round adds to the counter of the worker.
  pub process_popped-count :
      (popped : Option (InferTask ops.F))
      → (process_popped ops sort w m popped cs v).0.0.processed_count % word
        ≡ (v.processed_count + elim popped [ none ↦ 0 | some task ↦ 1 ]) % word
  unfolding process_popped add64
  process_popped-count none = omega arith
  process_popped-count (some task) = omega (arith, (process_task-Same task).1)
