-- ===== src/InferenceEngine/Contexts.antt =====
-- The engine owns the contexts of the runtime: a context that is open is held by a loaded model or by
-- a worker.
use infer_server.Base.{
  ℕ, zero, suc, ◌+◌, ◌≡◌, ◌≢◌, refl, ap, ◌∙◌, sym, subst, if_true, if_false, Bool, inl, inr, String,
  List, [], ◌∷◌, ◌++◌, map, arith, All, Bool-cases,
}
use infer_server.Base.Int.{ℤ, pos, ltb_ℤ, pos_part}
use infer_server.Base.Dict.{sum_by}
use infer_server.Types.{ModelConfig, InferTask}
use infer_server.ModelManager.{ModelManager, Runtime, NativeCall, load_model, is_loaded}
use infer_server.ModelManager.Contexts.{
  opened, closed, Balanced, opened-append, closed-append, held_masters, load_model-Balanced,
}
use infer_server.InferWorker
use infer_server.InferWorker.{InferWorker, pre_create_context, process_popped}
use infer_server.InferWorker.Contexts.{held_contexts, pre_create_context-Balanced}
use infer_server.InferWorker.Processing.{pre_create_context-Same}
use infer_server.ZmqPublisher
use infer_server.InferenceEngine.{
  InferenceEngine, LoadWorld, init, load_one, pre_create_each, submit, make_workers,
}
use infer_server.InferenceEngine.Workers.{sum_each, held_each, Running}

-- How many hold the context.
unfoldable pub held : {F : Type 0} → ℕ → InferenceEngine F → ℕ
held c e = held_masters c e.model_mgr + held_each c e.workers

-- Every opening of the context is matched by its destruction or by one that holds it.
unfoldable pub Balance : {F : Type 0} → ℕ → InferenceEngine F → Type 0
Balance c e = opened c e.native_calls ≡ closed c e.native_calls + held c e

-- Between two calls, all workers run.
pub record IsOwned {F : Type 0} (c : ℕ) (e : InferenceEngine F) : Type 0 where
  pub balance : Balance c e
  pub working : All Running e.workers

-- More calls that are balanced keep the balance.
pub balance_more :
    (c : ℕ) (xs ys : List NativeCall) (i j : ℕ)
    → opened c xs ≡ closed c xs + i
    → Balanced c ys i j
    → opened c (xs ++ ys) ≡ closed c (xs ++ ys) + j
balance_more c xs ys i j h b = omega (arith, opened-append c xs ys, closed-append c xs ys)

held_each-fresh :
    (c : ℕ) (beyond : ℕ → ℕ) (cores : ℤ) (i n : ℕ) (workers : List InferWorker)
    → held_each c (map InferWorker.start (workers ++ make_workers beyond cores i n))
      ≡ held_each c workers
unfolding sum_each make_workers InferWorker.make InferWorker.start held_contexts sum_by
held_each-fresh c beyond cores i zero [] = refl
held_each-fresh c beyond cores i (suc n) [] =
    omega (arith, held_each-fresh c beyond cores (suc i) n [])
held_each-fresh c beyond cores i n (v ∷ workers) = elim (Bool-cases v.running) [
  | inl r ↦ rw r (omega (arith, held_each-fresh c beyond cores i n workers))
  | inr r ↦ rw r (omega (arith, held_each-fresh c beyond cores i n workers))
]

start-Running : (workers : List InferWorker) → All Running (map InferWorker.start workers)
unfolding InferWorker.start
start-Running [] = tt
start-Running (v ∷ workers) = (ground arith, start-Running workers)

module _ {F : Type 0} (c : ℕ) (nz : c ≢ 0) where
  pub submit-IsOwned :
      (task : InferTask F) (e : InferenceEngine F) → IsOwned c e → IsOwned c (submit task e).0
  unfolding submit held Balance
  submit-IsOwned task e h = elim (Bool-cases e.initialized) [
    | inl i ↦ rw i (record { balance = h.balance; working = h.working })
    | inr i ↦ rw i (record { balance = h.balance; working = h.working })
  ]

  pre_create_each-Balanced :
      (path : String) (ws : ℕ → Runtime F) (m : ModelManager F) (i : ℕ) (workers : List InferWorker)
      → Balanced c
          (pre_create_each path ws m i workers).1
          (held_each c workers)
          (held_each c (pre_create_each path ws m i workers).0.0)
  unfolding pre_create_each sum_each
  pre_create_each-Balanced path ws m i [] = refl
  pre_create_each-Balanced path ws m i (v ∷ workers) =
      let one = pre_create_context path (ws i) m v in
      let rest = pre_create_each path ws m (suc i) workers in
      omega (
        arith,
        opened-append c one.1 rest.1,
        closed-append c one.1 rest.1,
        pre_create_context-Balanced c path (ws i) m v nz,
        pre_create_each-Balanced path ws m (suc i) workers,
      )

  pre_create_each-Running :
      (path : String) (ws : ℕ → Runtime F) (m : ModelManager F) (i : ℕ) (workers : List InferWorker)
      → All Running workers
      → All Running (pre_create_each path ws m i workers).0.0
  unfolding pre_create_each
  pre_create_each-Running path ws m i [] h = tt
  pre_create_each-Running path ws m i (v ∷ workers) h = (
    (pre_create_context-Same path (ws i) m v).0 ∙ h.0,
    pre_create_each-Running path ws m (suc i) workers h.1,
  )

  -- What is known of the engine that an operation comes to on one of its branches.
  along :
      {A : Type 0} {done done' : InferenceEngine F × A}
      → done ≡ done'
      → IsOwned c done'.0
      → IsOwned c done.0
  along e h = subst (λ d. IsOwned c d.0) (sym e) h

  pub load_one-IsOwned :
      (w : LoadWorld F) (mc : ModelConfig F) (e : InferenceEngine F)
      → IsOwned c e
      → IsOwned c (load_one w mc e).0
  unfolding load_one held Balance
  load_one-IsOwned w mc e h =
      let loaded = load_model mc.model_path w.loads e.model_mgr in
      let created = pre_create_each mc.model_path w.creates loaded.0.0 0 e.workers in
      let load_b = load_model-Balanced c mc.model_path w.loads e.model_mgr in
      let create_b = pre_create_each-Balanced mc.model_path w.creates loaded.0.0 0 e.workers in
      elim (Bool-cases (is_loaded mc.model_path e.model_mgr)) [
        | inl l ↦ along (if_true _ _ l) h
        | inr l ↦ elim (Bool-cases loaded.0.1) [
          | inl ok ↦ along (if_false _ _ l ∙ if_true _ _ ok) (record {
            balance = omega (
              arith,
              h.balance,
              load_b,
              create_b,
              opened-append c e.native_calls (loaded.1 ++ created.1),
              closed-append c e.native_calls (loaded.1 ++ created.1),
              opened-append c loaded.1 created.1,
              closed-append c loaded.1 created.1,
            );
            working =
                pre_create_each-Running mc.model_path w.creates loaded.0.0 0 e.workers h.working;
          })
          | inr bad ↦ along (if_false _ _ l ∙ if_false _ _ bad) (record {
            balance = omega (
              arith,
              h.balance,
              load_b,
              opened-append c e.native_calls loaded.1,
              closed-append c e.native_calls loaded.1,
            );
            working = h.working;
          })
        ]
      ]

  pub init-IsOwned :
      (beyond : ℕ → ℕ) (binds : Bool) (e : InferenceEngine F)
      → IsOwned c e
      → IsOwned c (init beyond binds e).0
  unfolding init held Balance
  init-IsOwned beyond binds e h = elim (Bool-cases e.initialized) [
    | inl i ↦ along (if_true _ _ i) h
    | inr i ↦ elim (Bool-cases (ZmqPublisher.init binds e.zmq_pub).1) [
      | inr z ↦
          along (if_false _ _ i ∙ if_false _ _ z)
            (record { balance = h.balance; working = h.working })
      | inl z ↦ elim (Bool-cases (ltb_ℤ e.config.num_infer_workers (pos 0))) [
        | inl n ↦
            along (if_false _ _ i ∙ if_true _ _ z ∙ if_true _ _ n)
              (record { balance = h.balance; working = h.working })
        | inr n ↦ along (if_false _ _ i ∙ if_true _ _ z ∙ if_false _ _ n) (record {
          balance =
              h.balance
              ∙ ap (λ k. closed c e.native_calls + (held_masters c e.model_mgr + k))
                  (sym (
                    held_each-fresh c beyond e.config.num_npu_cores 0
                      (pos_part e.config.num_infer_workers) e.workers));
          working = start-Running _;
        })
      ]
    ]
  ]
