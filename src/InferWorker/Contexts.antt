-- ===== src/InferWorker/Contexts.antt =====
-- A worker loses no context of the runtime: what it opens it holds, until it releases it.
use infer_server.Base.{
  ℕ, ◌+◌, ◌≡◌, ◌≢◌, refl, true, inl, inr, String, List, [], ◌∷◌, none, some, ◌==◌, arith, Option,
  Option-cases, Bool-cases, String_discrete,
}
use infer_server.Base.Dict.{Dict, find, sum_by, sum_by-insert_new}
use infer_server.Types.{InferTask, Detection}
use infer_server.ModelManager.{ModelManager, Runtime, create_worker_context, release_worker_context}
use infer_server.ModelManager.Contexts.{
  hits, Balanced, Balanced-append, create_worker_context-Balanced, release_worker_context-Balanced,
}
use infer_server.PostProcessor.Float.{FloatOps}
use infer_server.InferWorker.{
  InferWorker, TaskWorld, Collectors, get_or_create_context, pre_create_context, process_task,
  process_popped, release_all_contexts, release_each, infer,
}
use infer_server.InferWorker.Branches.{
  equipped, get_or_create_context-there, get_or_create_context-failed, get_or_create_context-made,
  pre_create_context-there, pre_create_context-failed, pre_create_context-made,
  process_task-unequipped, process_task-failed, process_task-done,
}

module _ (c : ℕ) where
  -- How many of the worker's models have the context.
  unfoldable pub held_contexts : InferWorker → ℕ
  held_contexts v = sum_by (λ ctx. hits c ctx) v.contexts

  release_each-Balanced :
      (contexts : Dict String ℕ)
      → c ≢ 0
      → Balanced c (release_each contexts) (sum_by (λ ctx. hits c ctx) contexts) 0
  unfolding release_each sum_by
  release_each-Balanced [] nz = refl
  release_each-Balanced ((path, ctx) ∷ contexts) nz =
      let n = sum_by (λ ctx. hits c ctx) contexts in
      Balanced-append c (release_worker_context ctx) (release_each contexts) (hits c ctx + n) n 0
        (omega (arith, release_worker_context-Balanced c ctx nz))
        (release_each-Balanced contexts nz)

  pub release_all_contexts-Balanced :
      (v : InferWorker)
      → c ≢ 0
      → Balanced c
          (release_all_contexts v).1
          (held_contexts v)
          (held_contexts (release_all_contexts v).0)
  unfolding release_all_contexts held_contexts sum_by
  release_all_contexts-Balanced v nz = release_each-Balanced v.contexts nz

  module _ {F : Type 0} (path : String) (w : Runtime F) (m : ModelManager F) (v : InferWorker)
      (nz : c ≢ 0) where
    -- A creation that failed opens nothing that is left open.
    failed-Balanced :
        ((create_worker_context path v.core_mask w m).0 == 0) ≡ true
        → Balanced c
            (create_worker_context path v.core_mask w m).1
            (held_contexts v)
            (held_contexts v)
    failed-Balanced z = ground (arith, create_worker_context-Balanced c path v.core_mask w m nz)

    equipped-Balanced :
        find String_discrete path v.contexts ≡ none
        → Balanced c
            (create_worker_context path v.core_mask w m).1
            (held_contexts v)
            (held_contexts (equipped path w m v))
    unfolding held_contexts
    equipped-Balanced e = omega (
      arith,
      create_worker_context-Balanced c path v.core_mask w m nz,
      sum_by-insert_new String_discrete (λ ctx. hits c ctx) path
          (create_worker_context path v.core_mask w m).0 v.contexts e,
    )

    pub get_or_create_context-Balanced :
        Balanced c
          (get_or_create_context path w m v).1
          (held_contexts v)
          (held_contexts (get_or_create_context path w m v).0.1)
    get_or_create_context-Balanced = elim (Option-cases (find String_discrete path v.contexts)) [
      | inr (ctx, e) ↦ rw (get_or_create_context-there path w m v e) refl
      | inl e ↦ elim (Bool-cases ((create_worker_context path v.core_mask w m).0 == 0)) [
        | inl z ↦ rw (get_or_create_context-failed path w m v e z) (failed-Balanced z)
        | inr z ↦ rw (get_or_create_context-made path w m v e z) (equipped-Balanced e)
      ]
    ]

    pub pre_create_context-Balanced :
        Balanced c
          (pre_create_context path w m v).1
          (held_contexts v)
          (held_contexts (pre_create_context path w m v).0.1)
    pre_create_context-Balanced = elim (Option-cases (find String_discrete path v.contexts)) [
      | inr (ctx, e) ↦ rw (pre_create_context-there path w m v e) refl
      | inl e ↦ elim (Bool-cases ((create_worker_context path v.core_mask w m).0 == 0)) [
        | inl z ↦ rw (pre_create_context-failed path w m v e z) (failed-Balanced z)
        | inr z ↦ rw (pre_create_context-made path w m v e z) (equipped-Balanced e)
      ]
    ]

  module _ (ops : FloatOps) (sort : List (Detection ops.F) → List (Detection ops.F))
      (w : TaskWorld ops.F) (m : ModelManager ops.F) (cs : Collectors ops.F) (v : InferWorker)
      (nz : c ≢ 0) where
    process_task-Balanced :
        (task : InferTask ops.F)
        → Balanced c
            (process_task ops sort w m task cs v).2
            (held_contexts v)
            (held_contexts (process_task ops sort w m task cs v).0.0)
    process_task-Balanced task =
        let got = get_or_create_context task.model_path w.runtime m v in
        let h = get_or_create_context-Balanced task.model_path w.runtime m v nz in
        elim (Bool-cases (got.0.0 == 0)) [
          | inl z ↦ rw (process_task-unequipped ops sort w m task cs v z) h
          | inr z ↦ elim (Option-cases (infer ops sort w m task)) [
            | inl e ↦ rw (process_task-failed ops sort w m task cs v z e) h
            | inr (result, e) ↦ rw (process_task-done ops sort w m task cs v z e) h
          ]
        ]

    pub process_popped-Balanced :
        (popped : Option (InferTask ops.F))
        → Balanced c
            (process_popped ops sort w m popped cs v).2
            (held_contexts v)
            (held_contexts (process_popped ops sort w m popped cs v).0.0)
    unfolding process_popped held_contexts
    process_popped-Balanced none = refl
    process_popped-Balanced (some task) = process_task-Balanced task
