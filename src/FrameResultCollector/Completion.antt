-- ===== src/FrameResultCollector/Completion.antt =====
-- When the collector publishes its frame, and with which results.
use infer_server.Base.{
  ℕ, zero, suc, ◌+◌, ◌≤◌, ◌<◌, ◌≡◌, refl, sym, true, false, List, [], ◌∷◌, ◌++◌, Option, none, some,
  arith, append_assoc, append-nil, leb, if◌then◌else◌, length, take,
}
use infer_server.Types.{ModelResult, FrameResult}
use infer_server.FrameResultCollector.{FrameResultCollector, make, add_result, is_complete}

module _ {F : Type 0} where
  abbrev pub with_results : FrameResult F → List (ModelResult F) → FrameResult F
  with_results r rs = record r { results = rs }

  abbrev pub to_list : Option (FrameResult F) → List (FrameResult F)
  to_list none = []
  to_list (some r) = r ∷ []

  -- The frames that the workers publish when they add these results, in this order.
  unfoldable pub published : FrameResultCollector F → List (ModelResult F) → List (FrameResult F)
  published c [] = []
  published c (r ∷ rs) = to_list (add_result c r).1 ++ published (add_result c r).0 rs

  -- The collector after these results.
  unfoldable pub collected : FrameResultCollector F → List (ModelResult F) → FrameResultCollector F
  collected c [] = c
  collected c (r ∷ rs) = collected (add_result c r).0 rs

  published-late :
      (c : FrameResultCollector F) (rs : List (ModelResult F))
      → c.total_models ≤ c.completed
      → published c rs ≡ []
  unfolding published add_result
  published-late c [] h = refl
  published-late c (r ∷ rs) h = ground (arith, published-late (add_result c r).0 rs)

  -- `k` more results are waited for, after the next one.
  published-from :
      (k : ℕ) (c : FrameResultCollector F) (rs : List (ModelResult F))
      → c.total_models ≡ c.completed + suc k
      → published c rs ≡ (
          if leb (suc k) (length rs)
          then with_results c.result (c.result.results ++ take (suc k) rs) ∷ []
          else [])
  unfolding published add_result
  published-from zero c [] h = ground arith
  published-from (suc k) c [] h = ground arith
  published-from zero c (r ∷ rs) h = ground (arith, published-late (add_result c r).0 rs)
  published-from (suc k) c (r ∷ rs) h = ground (
    arith,
    published-from k (add_result c r).0 rs,
    append_assoc c.result.results (r ∷ []) (take (suc k) rs),
  )

  -- A frame is published once, by the worker that adds the last of the results that the collector
  -- waits for, in whatever order they come: it carries those results in their order of arrival.
  -- If fewer results are added, because a task was dropped or failed, nothing is published.
  pub published-make :
      (n : ℕ) (base : FrameResult F) (rs : List (ModelResult F))
      → 0 < n
      → published (make n base) rs
        ≡ (if leb n (length rs) then with_results base (base.results ++ take n rs) ∷ [] else [])
  unfolding make
  published-make zero base rs h = elim h [ ]
  published-make (suc k) base rs h = published-from k (make (suc k) base) rs (omega arith)

  -- The frame is never lost to the order of arrival: after every result the collector knows what it
  -- was given, and it is complete exactly when the count is reached.
  pub collected-completed :
      (c : FrameResultCollector F) (rs : List (ModelResult F))
      → ((collected c rs).completed ≡ c.completed + length rs)
        × ((collected c rs).result.results ≡ c.result.results ++ rs)
        × ((collected c rs).total_models ≡ c.total_models)
  unfolding collected add_result
  collected-completed c [] = (omega arith, sym (append-nil _), refl)
  collected-completed c (r ∷ rs) =
      ground (
        arith,
        collected-completed (add_result c r).0 rs,
        append_assoc c.result.results (r ∷ []) rs,
      )

  -- After a frame has been published the collector is complete, and before it is not.
  pub is_complete-published :
      (n : ℕ) (base : FrameResult F) (rs : List (ModelResult F))
      → 0 < n
      → is_complete (collected (make n base) rs)
        ≡ (elim (published (make n base) rs) [ [] ↦ false | _ ↦ true ])
  unfolding is_complete make
  is_complete-published n base rs h =
      ground (arith, collected-completed (make n base) rs, published-make n base rs)
