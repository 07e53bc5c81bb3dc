-- ===== src/InferenceEngine/Account.antt =====
-- The account of the tasks: each is waiting, processed or dropped.
use infer_server.Base.{
  ℕ, ◌+◌, ◌%◌, ◌≡◌, refl, ap, ◌∙◌, sym, subst, if_true, if_false, Bool, inl, inr, List, [], ◌∷◌,
  Option, some, arith, length, get_elem?, All, Bool-cases, if◌then◌else◌,
}
use infer_server.Base.Int.{pos, pos_part, ltb_ℤ}
use infer_server.Base.Word.{word, size_of_int}
use infer_server.Types.{InferTask, ModelConfig, ServerConfig, Detection}
use infer_server.BoundedQueue
use infer_server.BoundedQueue.{BoundedQueue, without_front, take_front}
use infer_server.BoundedQueue.Shape.{IsBounded, make-IsBounded, step-IsBounded}
use infer_server.ModelManager.{load_model, is_loaded}
use infer_server.InferWorker.{InferWorker}
use infer_server.InferWorker.Processing.{process_popped-count}
use infer_server.PostProcessor.Float.{FloatOps}
use infer_server.ZmqPublisher
use infer_server.InferenceEngine.{
  InferenceEngine, Round, LoadWorld, make, init, load_one, submit, work, total_processed,
  set_result_callback,
}
use infer_server.InferenceEngine.Workers.{sum_each, sum_each-set_at}
use infer_server.InferenceEngine.Rounds.{after, worked, work-case}
use infer_server.InferenceEngine.History.{
  Call, inits, loads, collects, submits, works, calls_back, shuts_down, step, run,
}
use infer_server.InferenceEngine.Tasks.{
  tasks, total_from-processed, push-count, take_front-count, pre_create_each-processed,
  complete-tasks, fresh-processed,
}

module _ (ops : FloatOps) (sort : List (Detection ops.F) → List (Detection ops.F)) where
  open ops use {F}

  -- Not the shutdown, which drops the counters with the workers.
  abbrev pub IsUp : Call F → Type 0
  IsUp (shuts_down rounds closes) = ⊥
  IsUp _ = Unit

  abbrev pub accepts : Call F → InferenceEngine F → ℕ
  accepts (submits task) e = if (submit task e).1 then 1 else 0
  accepts _ e = 0

  -- How many of the submissions in a history returned true.
  unfoldable pub accepted : List (Call F) → InferenceEngine F → ℕ
  accepted [] e = 0
  accepted (call ∷ calls) e = accepts call e + accepted calls (step ops sort call e)

  -- The queue stays bounded, and `n` tasks are added to the account.
  abbrev Adds : ℕ → InferenceEngine F → InferenceEngine F → Type 0
  Adds n e' e = IsBounded e'.task_queue × (tasks e' % word ≡ (tasks e + n) % word)

  submit-Adds :
      (task : InferTask F) (e : InferenceEngine F)
      → IsBounded e.task_queue
      → Adds (if (submit task e).1 then 1 else 0) (submit task e).0 e
  unfolding submit BoundedQueue.step
  submit-Adds task e b = elim (Bool-cases e.initialized) [
    | inr i ↦ rw i (b, omega arith)
    | inl i ↦ rw i (
      step-IsBounded e.task_queue (BoundedQueue.pushes task) b,
      omega (arith, push-count task e.task_queue b),
    )
  ]

  worked-Adds :
      (r : Round F) (e : InferenceEngine F) (v : InferWorker)
      → get_elem? e.workers r.worker ≡ some v
      → IsBounded e.task_queue
      → Adds 0 (worked ops sort r e v) e
  unfolding BoundedQueue.try_pop BoundedQueue.step
  worked-Adds r e v s b =
      let popped = BoundedQueue.try_pop e.task_queue in
      let done = after ops sort r e v in
      let (drops, waits) = take_front-count e.task_queue e.task_queue.items refl in
      (
        step-IsBounded e.task_queue BoundedQueue.pops b,
        omega (
          arith,
          drops,
          waits,
          process_popped-count ops sort r.task_world e.model_mgr e.collectors v popped.0,
          sum_each-set_at (λ u. u.processed_count) r.worker v done.0.0 e.workers s,
        ),
      )

  work-Adds :
      (r : Round F) (e : InferenceEngine F) → IsBounded e.task_queue → Adds 0 (work ops sort r e) e
  work-Adds r e b =
      work-case ops sort (λ e'. Adds 0 e' e) r e (b, omega arith)
        λ v s runs.
          let done = worked-Adds r e v s b in
          let same = complete-tasks r.publishing (after ops sort r e v).1 (worked ops sort r e v) in
          (subst IsBounded (sym same.1) done.0, ap (λ k. k % word) same.0 ∙ done.1)

  load_one-Adds :
      (w : LoadWorld F) (mc : ModelConfig F) (e : InferenceEngine F)
      → IsBounded e.task_queue
      → Adds 0 (load_one w mc e).0 e
  unfolding load_one
  load_one-Adds w mc e b =
      let loaded = load_model mc.model_path w.loads e.model_mgr in
      let along = λ (d d' : InferenceEngine F × Bool) (p : d ≡ d') (h : Adds 0 d'.0 e).
        subst (λ (x : InferenceEngine F × Bool). Adds 0 x.0 e) (sym p) h in
      elim (Bool-cases (is_loaded mc.model_path e.model_mgr)) [
        | inl l ↦ along _ _ (if_true _ _ l) (b, omega arith)
        | inr l ↦ elim (Bool-cases loaded.0.1) [
          | inl ok ↦ along _ _ (if_false _ _ l ∙ if_true _ _ ok) (
            b,
            omega (arith, pre_create_each-processed mc.model_path w.creates loaded.0.0 0 e.workers),
          )
          | inr bad ↦ along _ _ (if_false _ _ l ∙ if_false _ _ bad) (b, omega arith)
        ]
      ]

  init-Adds :
      (beyond : ℕ → ℕ) (binds : Bool) (e : InferenceEngine F)
      → IsBounded e.task_queue
      → Adds 0 (init beyond binds e).0 e
  unfolding init
  init-Adds beyond binds e b =
      let along = λ (d d' : InferenceEngine F × Option Bool) (p : d ≡ d') (h : Adds 0 d'.0 e).
        subst (λ (x : InferenceEngine F × Option Bool). Adds 0 x.0 e) (sym p) h in
      elim (Bool-cases e.initialized) [
        | inl i ↦ along _ _ (if_true _ _ i) (b, omega arith)
        | inr i ↦ elim (Bool-cases (ZmqPublisher.init binds e.zmq_pub).1) [
          | inr z ↦ along _ _ (if_false _ _ i ∙ if_false _ _ z) (b, omega arith)
          | inl z ↦ elim (Bool-cases (ltb_ℤ e.config.num_infer_workers (pos 0))) [
            | inl n ↦ along _ _ (if_false _ _ i ∙ if_true _ _ z ∙ if_true _ _ n) (b, omega arith)
            | inr n ↦ along _ _ (if_false _ _ i ∙ if_true _ _ z ∙ if_false _ _ n) (
              b,
              omega (
                arith,
                fresh-processed beyond e.config.num_npu_cores 0
                    (pos_part e.config.num_infer_workers) e.workers,
              ),
            )
          ]
        ]
      ]

  step-Adds :
      (call : Call F) (e : InferenceEngine F)
      → IsUp call
      → IsBounded e.task_queue
      → Adds (accepts call e) (step ops sort call e) e
  unfolding step set_result_callback
  step-Adds (inits beyond binds) e u b = init-Adds beyond binds e b
  step-Adds (loads w mc) e u b = load_one-Adds w mc e b
  step-Adds (collects number collector) e u b = (b, omega arith)
  step-Adds (submits task) e u b = submit-Adds task e b
  step-Adds (works round) e u b = work-Adds round e b
  step-Adds calls_back e u b = (b, omega arith)
  step-Adds (shuts_down rounds closes) e u b = elim u [ ]

  run-Adds :
      (calls : List (Call F)) (e : InferenceEngine F)
      → All IsUp calls
      → IsBounded e.task_queue
      → Adds (accepted calls e) (run ops sort calls e) e
  unfolding run accepted
  run-Adds [] e u b = (b, omega arith)
  run-Adds (call ∷ calls) e u b =
      let one = step-Adds call e u.0 b in
      let rest = run-Adds calls (step ops sort call e) u.1 one.0 in
      (rest.0, omega (arith, one.1, rest.1))

  -- No task is lost without a count: after any history of a new engine that was not shut down, the
  -- tasks that its workers have processed, those that wait in the queue and those that it dropped
  -- are as many as the submissions that returned true. The counters are 64-bit words.
  pub run-make-tasks :
      (config : ServerConfig) (calls : List (Call F))
      → All IsUp calls
      → (total_processed (run ops sort calls (make config))
            + length (run ops sort calls (make config)).task_queue.items
            + (run ops sort calls (make config)).task_queue.dropped_count)
          % word
        ≡ accepted calls (make config) % word
  unfolding total_processed make sum_each BoundedQueue.make
  run-make-tasks config calls u =
      let e = run ops sort calls (make config) in
      omega (
        arith,
        total_from-processed 0 e.workers,
        (run-Adds calls (make config) u
            (make-IsBounded (InferTask F) (size_of_int config.infer_queue_size))).1,
      )
