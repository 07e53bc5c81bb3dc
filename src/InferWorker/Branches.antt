-- ===== src/InferWorker/Branches.antt =====
-- What the operations of a worker come to on each of their branches.
use infer_server.Base.{
  ℕ, ◌≡◌, refl, true, false, String, List, [], none, some, ◌==◌, String_discrete,
}
use infer_server.Base.Dict.{find, insert}
use infer_server.Types.{InferTask, ModelResult, Detection}
use infer_server.ModelManager.{ModelManager, Runtime, create_worker_context}
use infer_server.PostProcessor.Float.{FloatOps}
use infer_server.InferWorker.{
  InferWorker, TaskWorld, Collectors, get_or_create_context, pre_create_context, infer, aggregate,
  process_task,
}

module _ {F : Type 0} (path : String) (w : Runtime F) (m : ModelManager F) (v : InferWorker) where
  -- The worker with the new context, and what is made for it.
  abbrev pub equipped : InferWorker
  equipped = record v {
    contexts =
        insert String_discrete path (create_worker_context path v.core_mask w m).0 v.contexts;
  }

  pub get_or_create_context-there :
      {ctx : ℕ}
      → find String_discrete path v.contexts ≡ some ctx
      → get_or_create_context path w m v ≡ ((ctx, v), [])
  unfolding get_or_create_context
  get_or_create_context-there e = rw (get_or_create_context, e) refl

  pub get_or_create_context-failed :
      find String_discrete path v.contexts ≡ none
      → ((create_worker_context path v.core_mask w m).0 == 0) ≡ true
      → get_or_create_context path w m v ≡ ((0, v), (create_worker_context path v.core_mask w m).1)
  unfolding get_or_create_context
  get_or_create_context-failed e z = rw (get_or_create_context, e, z) refl

  pub get_or_create_context-made :
      find String_discrete path v.contexts ≡ none
      → ((create_worker_context path v.core_mask w m).0 == 0) ≡ false
      → get_or_create_context path w m v ≡ (
        ((create_worker_context path v.core_mask w m).0, equipped),
        (create_worker_context path v.core_mask w m).1,
      )
  unfolding get_or_create_context
  get_or_create_context-made e z = rw (get_or_create_context, e, z) refl

  pub pre_create_context-there :
      {ctx : ℕ}
      → find String_discrete path v.contexts ≡ some ctx
      → pre_create_context path w m v ≡ ((true, v), [])
  unfolding pre_create_context
  pre_create_context-there e = rw (pre_create_context, e) refl

  pub pre_create_context-failed :
      find String_discrete path v.contexts ≡ none
      → ((create_worker_context path v.core_mask w m).0 == 0) ≡ true
      → pre_create_context path w m v ≡ ((false, v), (create_worker_context path v.core_mask w m).1)
  unfolding pre_create_context
  pre_create_context-failed e z = rw (pre_create_context, e, z) refl

  pub pre_create_context-made :
      find String_discrete path v.contexts ≡ none
      → ((create_worker_context path v.core_mask w m).0 == 0) ≡ false
      → pre_create_context path w m v
        ≡ ((true, equipped), (create_worker_context path v.core_mask w m).1)
  unfolding pre_create_context
  pre_create_context-made e z = rw (pre_create_context, e, z) refl

module _ (ops : FloatOps) (sort : List (Detection ops.F) → List (Detection ops.F))
    (w : TaskWorld ops.F) (m : ModelManager ops.F) (task : InferTask ops.F) (cs : Collectors ops.F)
    (v : InferWorker) where
  pub process_task-unequipped :
      ((get_or_create_context task.model_path w.runtime m v).0.0 == 0) ≡ true
      → process_task ops sort w m task cs v ≡ (
        ((get_or_create_context task.model_path w.runtime m v).0.1, cs),
        none,
        (get_or_create_context task.model_path w.runtime m v).1,
      )
  unfolding process_task
  process_task-unequipped z = rw (process_task, z) refl

  pub process_task-failed :
      ((get_or_create_context task.model_path w.runtime m v).0.0 == 0) ≡ false
      → infer ops sort w m task ≡ none
      → process_task ops sort w m task cs v ≡ (
        ((get_or_create_context task.model_path w.runtime m v).0.1, cs),
        none,
        (get_or_create_context task.model_path w.runtime m v).1,
      )
  unfolding process_task
  process_task-failed z e = rw (process_task, z, e) refl

  pub process_task-done :
      {result : ModelResult ops.F}
      → ((get_or_create_context task.model_path w.runtime m v).0.0 == 0) ≡ false
      → infer ops sort w m task ≡ some result
      → process_task ops sort w m task cs v ≡ (
        ((get_or_create_context task.model_path w.runtime m v).0.1, (aggregate task result cs).0),
        (aggregate task result cs).1,
        (get_or_create_context task.model_path w.runtime m v).1,
      )
  unfolding process_task
  process_task-done z e = rw (process_task, z, e) refl
