-- ===== src/InferenceEngine/Rounds.antt =====
-- What a round of a worker does to the contexts and the flags of the workers.
use infer_server.Base.{
  ℕ, ◌≡◌, ◌≢◌, refl, ap, ◌∙◌, sym, subst, if_true, if_false, true, false, inl, inr, List, [], ◌∷◌,
  ◌++◌, Option, none, some, arith, length, get_elem?, All, Option-cases, Bool-cases,
}
use infer_server.Types.{FrameResult, Detection}
use infer_server.BoundedQueue
use infer_server.ModelManager.{NativeCall}
use infer_server.ModelManager.Contexts.{opened-append, closed-append}
use infer_server.InferWorker.{InferWorker, Collectors, process_popped}
use infer_server.InferWorker.Contexts.{held_contexts, process_popped-Balanced}
use infer_server.InferWorker.Processing.{process_popped-running}
use infer_server.PostProcessor.Float.{FloatOps}
use infer_server.InferenceEngine.{
  InferenceEngine, Round, Publishing, work, work_all, complete, on_result_complete, set_at,
}
use infer_server.InferenceEngine.Workers.{
  sum_each-set_at, All-set_at, Running, Tidy, Rest, Rest-set_at, length-set_at,
}
use infer_server.InferenceEngine.Contexts.{held, Balance}

-- The members that `complete` leaves alone.
pub complete-Same :
    {F : Type 0} (w : Publishing F) (o : Option (FrameResult F)) (e : InferenceEngine F)
    → ((complete w o e).workers ≡ e.workers)
      × ((complete w o e).native_calls ≡ e.native_calls)
      × ((complete w o e).model_mgr ≡ e.model_mgr)
unfolding complete on_result_complete
complete-Same w none e = (refl, refl, refl)
complete-Same w (some result) e = (refl, refl, refl)

complete-Balance :
    {F : Type 0} (c : ℕ) (w : Publishing F) (o : Option (FrameResult F)) (e : InferenceEngine F)
    → Balance c e
    → Balance c (complete w o e)
unfolding complete on_result_complete Balance held
complete-Balance c w none e h = h
complete-Balance c w (some result) e h = h

module _ (ops : FloatOps) (sort : List (Detection ops.F) → List (Detection ops.F)) (r : Round ops.F)
    (e : InferenceEngine ops.F) where
  -- What `process_popped` comes to in the round.
  abbrev pub after :
      InferWorker → (InferWorker × Collectors ops.F) × Option (FrameResult ops.F) × List NativeCall
  after v =
      process_popped ops sort r.task_world e.model_mgr (BoundedQueue.try_pop e.task_queue).0
        e.collectors v

  -- The engine after the worker's round, before a complete frame is published.
  abbrev pub worked : InferWorker → InferenceEngine ops.F
  worked v = record e {
    task_queue = (BoundedQueue.try_pop e.task_queue).1;
    workers = set_at r.worker (after v).0.0 e.workers;
    collectors = (after v).0.1;
    native_calls = e.native_calls ++ (after v).2;
  }

  pub work-none : get_elem? e.workers r.worker ≡ none → work ops sort r e ≡ e
  unfolding work
  work-none n = rw (work, n) refl

  pub work-rest :
      {v : InferWorker}
      → get_elem? e.workers r.worker ≡ some v
      → v.running ≡ false
      → work ops sort r e ≡ e
  unfolding work
  work-rest s rests = rw (work, s) (if_false _ _ rests)

  pub work-runs :
      {v : InferWorker}
      → get_elem? e.workers r.worker ≡ some v
      → v.running ≡ true
      → work ops sort r e ≡ complete r.publishing (after v).1 (worked v)
  unfolding work
  work-runs s runs = rw (work, s) (if_true _ _ runs)

module _ (ops : FloatOps) (sort : List (Detection ops.F) → List (Detection ops.F)) where
  after-running :
      (r : Round ops.F) (e : InferenceEngine ops.F) (v : InferWorker)
      → v.running ≡ true
      → (after ops sort r e v).0.0.running ≡ true
  after-running r e v runs =
      process_popped-running ops sort r.task_world e.model_mgr e.collectors v
        (BoundedQueue.try_pop e.task_queue).0
      ∙ runs

  worked-Balance :
      (c : ℕ) (r : Round ops.F) (e : InferenceEngine ops.F) (v : InferWorker)
      → c ≢ 0
      → get_elem? e.workers r.worker ≡ some v
      → Balance c e
      → Balance c (worked ops sort r e v)
  unfolding Balance held
  worked-Balance c r e v nz s h =
      let done = after ops sort r e v in
      omega (
        arith,
        h,
        opened-append c e.native_calls done.2,
        closed-append c e.native_calls done.2,
        process_popped-Balanced c ops sort r.task_world e.model_mgr e.collectors v nz
            (BoundedQueue.try_pop e.task_queue).0,
        sum_each-set_at (held_contexts c) r.worker v done.0.0 e.workers s,
      )

  -- What holds of the engine after a round, if it holds before and of what a running worker makes of
  -- it.
  pub work-case :
      (P : InferenceEngine ops.F → Type 0) (r : Round ops.F) (e : InferenceEngine ops.F)
      → P e
      → ((v : InferWorker)
          → get_elem? e.workers r.worker ≡ some v
          → v.running ≡ true
          → P (complete r.publishing (after ops sort r e v).1 (worked ops sort r e v)))
      → P (work ops sort r e)
  work-case P r e h f = elim (Option-cases (get_elem? e.workers r.worker)) [
    | inl n ↦ subst P (sym (work-none ops sort r e n)) h
    | inr (v, s) ↦ elim (Bool-cases v.running) [
      | inl runs ↦ subst P (sym (work-runs ops sort r e s runs)) (f v s runs)
      | inr rests ↦ subst P (sym (work-rest ops sort r e s rests)) h
    ]
  ]

  pub work-Balance :
      (c : ℕ) (r : Round ops.F) (e : InferenceEngine ops.F)
      → c ≢ 0
      → Balance c e
      → Balance c (work ops sort r e)
  work-Balance c r e nz h = work-case (Balance c) r e h λ v s runs.
      complete-Balance c r.publishing (after ops sort r e v).1 (worked ops sort r e v)
        (worked-Balance c r e v nz s h)

  -- What holds of all workers that run, and of all workers before.
  pub work-All :
      (P : InferWorker → Type 0) (r : Round ops.F) (e : InferenceEngine ops.F)
      → ((v : InferWorker) → Running v → P v)
      → All P e.workers
      → All P (work ops sort r e).workers
  work-All P r e f h =
      work-case (λ e'. All P e'.workers) r e h
        λ v s runs.
          let done = after ops sort r e v in
          subst (All P) (sym (complete-Same r.publishing done.1 (worked ops sort r e v)).0)
            (All-set_at P r.worker done.0.0 e.workers h (f done.0.0 (after-running r e v runs)))

  work-Rest :
      (n : ℕ) (r : Round ops.F) (e : InferenceEngine ops.F)
      → Rest n e.workers
      → Rest n (work ops sort r e).workers
  work-Rest n r e h =
      work-case (λ e'. Rest n e'.workers) r e h
        λ v s runs.
          let done = after ops sort r e v in
          subst (Rest n) (sym (complete-Same r.publishing done.1 (worked ops sort r e v)).0)
            (Rest-set_at n r.worker v done.0.0 e.workers s runs h)

  work-length :
      (r : Round ops.F) (e : InferenceEngine ops.F)
      → length (work ops sort r e).workers ≡ length e.workers
  work-length r e =
      work-case (λ e'. length e'.workers ≡ length e.workers) r e refl
        λ v s runs.
          let done = after ops sort r e v in
          ap length (complete-Same r.publishing done.1 (worked ops sort r e v)).0
          ∙ length-set_at r.worker done.0.0 e.workers

  -- Where the loop that stops the workers stands: the first `n` do not run, those that do not run
  -- hold nothing, and no context is lost.
  pub record IsStopping (c n total : ℕ) (e : InferenceEngine ops.F) : Type 0 where
    pub balance : Balance c e
    pub tidy : All Tidy e.workers
    pub rest : Rest n e.workers
    pub count : length e.workers ≡ total

  pub work_all-IsStopping :
      (c n total : ℕ) (rounds : List (Round ops.F)) (e : InferenceEngine ops.F)
      → c ≢ 0
      → IsStopping c n total e
      → IsStopping c n total (work_all ops sort rounds e)
  unfolding work_all
  work_all-IsStopping c n total [] e nz h = h
  work_all-IsStopping c n total (r ∷ rounds) e nz h =
      work_all-IsStopping c n total rounds (work ops sort r e) nz (record {
        balance = work-Balance c r e nz h.balance;
        tidy = work-All Tidy r e (λ v runs. inl runs) h.tidy;
        rest = work-Rest n r e h.rest;
        count = work-length r e ∙ h.count;
      })
