-- ===== src/InferenceEngine/Tasks.antt =====
-- What the parts of the engine do to the numbers of tasks that are processed, wait or were dropped.
use infer_server.Base.{
  ℕ, zero, suc, ◌+◌, ◌%◌, ◌≡◌, refl, ap, inl, inr, List, [], ◌∷◌, ◌++◌, Option, none, some, map,
  arith, length, length-append, Bool-cases, if◌then◌else◌,
}
use infer_server.Base.Int.{ℤ}
use infer_server.Base.Word.{word, add64}
use infer_server.Types.{FrameResult}
use infer_server.BoundedQueue
use infer_server.BoundedQueue.{BoundedQueue, without_front, take_front}
use infer_server.BoundedQueue.Shape.{IsBounded, length-without_front}
use infer_server.ModelManager.{ModelManager, Runtime}
use infer_server.InferWorker
use infer_server.InferWorker.{InferWorker}
use infer_server.InferWorker.Processing.{pre_create_context-Same}
use infer_server.InferenceEngine.{
  InferenceEngine, Publishing, pre_create_each, complete, on_result_complete, make_workers,
  total_from,
}
use infer_server.InferenceEngine.Workers.{sum_each}

abbrev pub processed : List InferWorker → ℕ
processed workers = sum_each (λ v. v.processed_count) workers

pub total_from-processed :
    (total : ℕ) (workers : List InferWorker)
    → total_from total workers % word ≡ (total + processed workers) % word
unfolding total_from sum_each add64
total_from-processed total [] = omega arith
total_from-processed total (v ∷ workers) =
    omega (arith, total_from-processed (add64 total v.processed_count) workers)

module _ {T : Type 0} where
  pub push-count :
      (x : T) (q : BoundedQueue T)
      → IsBounded q
      → ((BoundedQueue.push x q).0.dropped_count + length (BoundedQueue.push x q).0.items) % word
        ≡ (q.dropped_count + length q.items + (if (BoundedQueue.push x q).1 then 1 else 0)) % word
  unfolding BoundedQueue.push add64
  push-count x q b = ground (
    arith,
    length-append (without_front q.items) (x ∷ []),
    length-append q.items (x ∷ []),
    length-without_front q.items,
  )

  pub take_front-count :
      (q : BoundedQueue T) (xs : List T)
      → q.items ≡ xs
      → ((take_front q xs).1.dropped_count ≡ q.dropped_count)
        × (length (take_front q xs).1.items + elim (take_front q xs).0 [ none ↦ 0 | some x ↦ 1 ]
            ≡ length q.items)
  unfolding take_front
  take_front-count q [] e = (refl, omega arith)
  take_front-count q (x ∷ xs) e = (refl, omega (arith, ap length e))

module _ {F : Type 0} where
  -- The tasks that wait, that were processed, and that were dropped.
  abbrev pub tasks : InferenceEngine F → ℕ
  tasks e = processed e.workers + length e.task_queue.items + e.task_queue.dropped_count

  pub pre_create_each-processed :
      (path : _) (ws : ℕ → Runtime F) (m : ModelManager F) (i : ℕ) (workers : List InferWorker)
      → processed (pre_create_each path ws m i workers).0.0 ≡ processed workers
  unfolding pre_create_each sum_each
  pre_create_each-processed path ws m i [] = refl
  pre_create_each-processed path ws m i (v ∷ workers) = omega (
    arith,
    (pre_create_context-Same path (ws i) m v).1,
    pre_create_each-processed path ws m (suc i) workers,
  )

  pub complete-tasks :
      (w : Publishing F) (o : Option (FrameResult F)) (e : InferenceEngine F)
      → (tasks (complete w o e) ≡ tasks e) × ((complete w o e).task_queue ≡ e.task_queue)
  unfolding complete on_result_complete
  complete-tasks w none e = (refl, refl)
  complete-tasks w (some result) e = (refl, refl)

pub fresh-processed :
    (beyond : ℕ → ℕ) (cores : ℤ) (i n : ℕ) (workers : List InferWorker)
    → processed (map InferWorker.start (workers ++ make_workers beyond cores i n))
      ≡ processed workers
unfolding sum_each make_workers InferWorker.make InferWorker.start
fresh-processed beyond cores i zero [] = refl
fresh-processed beyond cores i (suc n) [] = omega (arith, fresh-processed beyond cores (suc i) n [])
fresh-processed beyond cores i n (v ∷ workers) = elim (Bool-cases v.running) [
  | inl r ↦ rw r (omega (arith, fresh-processed beyond cores i n workers))
  | inr r ↦ rw r (omega (arith, fresh-processed beyond cores i n workers))
]
