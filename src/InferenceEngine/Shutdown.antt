-- ===== src/InferenceEngine/Shutdown.antt =====
-- The contexts of the runtime over a history of the engine, and at its shutdown.
use infer_server.Base.{
  ℕ, zero, suc, ◌+◌, ◌≡◌, ◌≢◌, refl, ◌∙◌, sym, subst, if_true, Bool, true, false, inl, inr, List,
  [], ◌++◌, none, some, arith, length, get_elem?, All-map, Option-cases, Bool-cases,
}
use infer_server.Base.Dict.{sum_by}
use infer_server.Types.{Detection}
use infer_server.BoundedQueue
use infer_server.ModelManager.{unload_all}
use infer_server.ModelManager.Contexts.{
  Balanced, opened, closed, opened-append, closed-append, held_masters, unload_all-Balanced,
}
use infer_server.InferWorker
use infer_server.InferWorker.{InferWorker, release_all_contexts}
use infer_server.InferWorker.Contexts.{held_contexts, release_all_contexts-Balanced}
use infer_server.PostProcessor.Float.{FloatOps}
use infer_server.InferenceEngine.{
  InferenceEngine, Round, stop_worker, stop_workers, shutdown, set_at, work_all,
}
use infer_server.InferenceEngine.Workers.{
  sum_each-set_at, held_each-Rest, All-set_at, All-get, Running, Tidy, Rest, Rest-stop, Rest-end,
  length-set_at,
}
use infer_server.InferenceEngine.Contexts.{held, Balance, IsOwned}
use infer_server.InferenceEngine.Rounds.{IsStopping, work_all-IsStopping}

stop-Balanced :
    (c : ℕ) (v : InferWorker)
    → c ≢ 0
    → Balanced c (InferWorker.stop v).1 (held_contexts c v) (held_contexts c (InferWorker.stop v).0)
unfolding InferWorker.stop held_contexts
stop-Balanced c v nz = elim (Bool-cases v.running) [
  | inl r ↦
      rw r
        (release_all_contexts-Balanced c (record v { stop_requested = true; running = false }) nz)
  | inr r ↦ rw r refl
]

-- A worker that has been stopped does not run and, if it was tidy, holds nothing.
stopped :
    (v : InferWorker)
    → Tidy v
    → ((InferWorker.stop v).0.running ≡ false) × ((InferWorker.stop v).0.contexts ≡ [])
unfolding InferWorker.stop release_all_contexts
stopped v t = elim (Bool-cases v.running) [
  | inl r ↦ rw r (refl, refl)
  | inr r ↦ elim t [ inl runs ↦ cc | inr bare ↦ rw r (refl, bare) ]
]

module _ {F : Type 0} (i : ℕ) (e : InferenceEngine F) where
  stop_worker-none : get_elem? e.workers i ≡ none → stop_worker i e ≡ e
  unfolding stop_worker
  stop_worker-none n = rw (stop_worker, n) refl

  stop_worker-some :
      {v : InferWorker}
      → get_elem? e.workers i ≡ some v
      → stop_worker i e ≡ record e {
        workers = set_at i (InferWorker.stop v).0 e.workers;
        native_calls = e.native_calls ++ (InferWorker.stop v).1;
      }
  unfolding stop_worker
  stop_worker-some s = rw (stop_worker, s) refl

module _ (ops : FloatOps) (sort : List (Detection ops.F) → List (Detection ops.F)) (c : ℕ)
    (nz : c ≢ 0) where
  open ops use {F}

  stop_worker-IsStopping :
      (n total : ℕ) (e : InferenceEngine F)
      → IsStopping ops sort c n total e
      → IsStopping ops sort c (suc n) total (stop_worker n e)
  unfolding Balance held
  stop_worker-IsStopping n total e h = elim (Option-cases (get_elem? e.workers n)) [
    | inl out ↦
        subst (IsStopping ops sort c (suc n) total) (sym (stop_worker-none n e out)) (record {
          balance = h.balance;
          tidy = h.tidy;
          rest = Rest-end n e.workers out h.rest;
          count = h.count;
        })
    | inr (v, s) ↦
        let (rests, bare) = stopped v (All-get Tidy n e.workers h.tidy s) in
        let v' = (InferWorker.stop v).0 in
        let calls = (InferWorker.stop v).1 in
        subst (IsStopping ops sort c (suc n) total) (sym (stop_worker-some n e s)) (record {
          balance = omega (
            arith,
            h.balance,
            opened-append c e.native_calls calls,
            closed-append c e.native_calls calls,
            stop-Balanced c v nz,
            sum_each-set_at (held_contexts c) n v v' e.workers s,
          );
          tidy = All-set_at Tidy n v' e.workers h.tidy (inr bare);
          rest = Rest-stop n v' e.workers rests h.rest;
          count = length-set_at n v' e.workers ∙ h.count;
        })
  ]

  stop_workers-IsStopping :
      (rounds : ℕ → List (Round F)) (n left total : ℕ) (e : InferenceEngine F)
      → n + left ≡ total
      → IsStopping ops sort c n total e
      → IsStopping ops sort c total total (stop_workers ops sort rounds n left e)
  unfolding stop_workers
  stop_workers-IsStopping rounds n zero total e l h =
      subst (λ k. IsStopping ops sort c k total e) (omega arith) h
  stop_workers-IsStopping rounds n (suc left) total e l h =
      stop_workers-IsStopping rounds (suc n) left total _ (omega arith) (
        stop_worker-IsStopping n total (work_all ops sort (rounds n) e)
          (work_all-IsStopping ops sort c n total (rounds n) e nz h))

  start-IsStopping :
      (e : InferenceEngine F)
      → IsOwned c e
      → IsStopping ops sort c 0
          (length e.workers)
          (record e { task_queue = BoundedQueue.stop e.task_queue })
  unfolding Balance held
  start-IsStopping e h = record {
    balance = h.balance;
    tidy = All-map Running Tidy e.workers (λ v runs. inl runs) h.working;
    rest = tt;
    count = refl;
  }

  -- When all workers have stopped, the loaded models alone hold contexts.
  unloaded-even :
      (total : ℕ) (e : InferenceEngine F)
      → IsStopping ops sort c total total e
      → opened c (e.native_calls ++ (unload_all e.model_mgr).1)
        ≡ closed c (e.native_calls ++ (unload_all e.model_mgr).1)
  unfolding Balance held held_masters unload_all sum_by
  unloaded-even total e h =
      let calls = (unload_all e.model_mgr).1 in
      omega (
        arith,
        h.balance,
        opened-append c e.native_calls calls,
        closed-append c e.native_calls calls,
        unload_all-Balanced c e.model_mgr,
        held_each-Rest c e.workers h.tidy (subst (λ k. Rest k e.workers) (sym h.count) h.rest),
      )

  pub shutdown-even :
      (rounds : ℕ → List (Round F)) (closes : Bool) (e : InferenceEngine F)
      → IsOwned c e
      → e.initialized ≡ true
      → opened c (shutdown ops sort rounds closes e).native_calls
        ≡ closed c (shutdown ops sort rounds closes e).native_calls
  unfolding shutdown
  shutdown-even rounds closes e h i =
      let total = length e.workers in
      let e' =
        stop_workers ops sort rounds 0 total
          (record e { task_queue = BoundedQueue.stop e.task_queue }) in
      subst (λ (d : InferenceEngine F). opened c d.native_calls ≡ closed c d.native_calls)
        (sym (if_true _ _ i))
        (unloaded-even total e'
          (stop_workers-IsStopping rounds 0 total total _ (omega arith) (start-IsStopping e h)))
