-- ===== src/InferWorker/Aggregation.antt =====
-- How the workers' results join in the frames of several collectors.
use infer_server.Base.{
  ℕ, ◌≡◌, ◌≢◌, refl, ap, sym, ◌∙◌, subst, true, false, inl, inr, Bool, List, [], ◌∷◌, ◌++◌, Option,
  none, some, ◌<◌, leb, length, take, ite, if_pos, if_neg, if◌then◌else◌, Option-cases, ℕ_discrete,
}
use infer_server.Base.Dict.{find, insert, find-insert_self, find-insert_ne}
use infer_server.Types.{InferTask, ModelResult, FrameResult}
use infer_server.FrameResultCollector.{FrameResultCollector, make, add_result}
use infer_server.FrameResultCollector.Completion.{published, published-make, with_results, to_list}
use infer_server.InferWorker.{Collectors, aggregate, single_result}

-- Results in the order in which workers hand them to `aggregate`, with their tasks.
abbrev pub Answer : Type 0 → Type 0
Answer F = InferTask F × ModelResult F

abbrev pub is_for : ℕ → Option ℕ → Bool
is_for k none = false
is_for k (some j) = ite (ℕ_discrete j k) true false

module _ {F : Type 0} where
  -- The results whose tasks point to collector `k`.
  unfoldable pub results_for : ℕ → List (Answer F) → List (ModelResult F)
  results_for k [] = []
  results_for k ((task, r) ∷ answers) =
      if is_for k task.aggregator then r ∷ results_for k answers else results_for k answers

  -- The frames that the callback receives for the tasks that point to collector `k`.
  unfoldable pub frames_for : ℕ → List (Answer F) → Collectors F → List (FrameResult F)
  unfolding aggregate
  frames_for k [] cs = []
  frames_for k ((task, r) ∷ answers) cs =
      let added = aggregate task r cs in
      let rest = frames_for k answers added.0 in
      if is_for k task.aggregator then to_list added.1 ++ rest else rest

  aggregate-none :
      (task : InferTask F) (r : ModelResult F) (cs : Collectors F)
      → task.aggregator ≡ none
      → aggregate task r cs ≡ (cs, some (single_result task r))
  unfolding aggregate
  aggregate-none task r cs e = rw (aggregate, e) refl

  aggregate-missing :
      (task : InferTask F) (r : ModelResult F) (cs : Collectors F) {j : ℕ}
      → task.aggregator ≡ some j
      → find ℕ_discrete j cs ≡ none
      → aggregate task r cs ≡ (cs, none)
  unfolding aggregate
  aggregate-missing task r cs e m = rw (aggregate, e, m) refl

  aggregate-there :
      (task : InferTask F) (r : ModelResult F) (cs : Collectors F) {j : ℕ}
      {coll : FrameResultCollector F}
      → task.aggregator ≡ some j
      → find ℕ_discrete j cs ≡ some coll
      → aggregate task r cs ≡ (insert ℕ_discrete j (add_result coll r).0 cs, (add_result coll r).1)
  unfolding aggregate
  aggregate-there task r cs e m = rw (aggregate, e, m) refl

  -- A result for another frame leaves collector `k` as it is.
  aggregate-other :
      (task : InferTask F) (r : ModelResult F) (cs : Collectors F) (k j : ℕ)
      → task.aggregator ≡ some j
      → j ≢ k
      → find ℕ_discrete k (aggregate task r cs).0 ≡ find ℕ_discrete k cs
  aggregate-other task r cs k j e n = elim (Option-cases (find ℕ_discrete j cs)) [
    | inl m ↦ rw (aggregate-missing task r cs e m) refl
    | inr (coll, m) ↦
        rw (aggregate-there task r cs e m)
          (find-insert_ne ℕ_discrete j k (add_result coll r).0 cs n)
  ]

  frames_for-published :
      (k : ℕ) (answers : List (Answer F)) (cs : Collectors F) (coll : FrameResultCollector F)
      → find ℕ_discrete k cs ≡ some coll
      → frames_for k answers cs ≡ published coll (results_for k answers)
  unfolding frames_for results_for published
  frames_for-published k [] cs coll h = refl
  frames_for-published k ((task, r) ∷ answers) cs coll h = elim (Option-cases task.aggregator) [
    | inl none_there ↦
        rw (aggregate-none task r cs none_there, none_there)
          (frames_for-published k answers cs coll h)
    | inr (j, e) ↦ elim (ℕ_discrete j k) [
      | yes p ↦
          let h' = subst (λ i. find ℕ_discrete i cs ≡ some coll) (sym p) h in
          let rest =
            frames_for-published k answers (insert ℕ_discrete j (add_result coll r).0 cs)
              (add_result coll r).0
              (subst
                (λ i.
                  find ℕ_discrete i (insert ℕ_discrete j (add_result coll r).0 cs)
                  ≡ some (add_result coll r).0)
                p (find-insert_self ℕ_discrete j (add_result coll r).0 cs)) in
          rw
            (aggregate-there task r cs e h', ap (is_for k) e ∙ if_pos (ℕ_discrete j k) p true false)
            (ap (◌++◌ (to_list (add_result coll r).1)) rest)
      | no n ↦ rw (ap (is_for k) e ∙ if_neg (ℕ_discrete j k) n true false) (
          frames_for-published k answers (aggregate task r cs).0 coll
            (aggregate-other task r cs k j e n ∙ h))
    ]
  ]

  -- The results of many frames' tasks arrive in any order. If a collector of a frame for `n` models
  -- is in place, then the callback receives its frame once, with the first `n` results of that
  -- frame's own tasks, as soon as there are so many, and never otherwise: results of other frames
  -- change nothing.
  pub frames_for-make :
      (k n : ℕ) (base : FrameResult F) (answers : List (Answer F)) (cs : Collectors F)
      → 0 < n
      → frames_for k answers (insert ℕ_discrete k (make n base) cs) ≡ (
          if leb n (length (results_for k answers))
          then with_results base (base.results ++ take n (results_for k answers)) ∷ []
          else [])
  frames_for-make k n base answers cs h =
      frames_for-published k answers _ (make n base)
        (find-insert_self ℕ_discrete k (make n base) cs)
      ∙ published-make n base (results_for k answers) h
