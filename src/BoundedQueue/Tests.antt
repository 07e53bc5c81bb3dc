-- ===== src/BoundedQueue/Tests.antt =====
-- Runs of the queue, and its theorems at concrete inputs.
use mathlib.Core.List.{Sublist}
use infer_server.Base.{
  ℕ, ◌+◌, ◌%◌, ◌≡◌, refl, true, false, List, [], ◌∷◌, ◌++◌, some, arith, length, map, All,
}
use infer_server.Base.Word.{word, add64}
use infer_server.BoundedQueue.{BoundedQueue, Call, pushes, pops, make, pop, step, run}
use infer_server.BoundedQueue.Shape.{IsBounded, run-make-IsBounded, run-pushes}
use infer_server.BoundedQueue.Order.{
  delivered, accepted, keeps_items, delivered-order, delivered-balance, delivered-stopped,
}

abbrev two : BoundedQueue ℕ
two = record { capacity = 2; items = 4 ∷ 5 ∷ []; stopped = false; dropped_count = 0 }

abbrev idle : BoundedQueue ℕ
idle = record { capacity = 2; items = []; stopped = false; dropped_count = 0 }

abbrev halted : BoundedQueue ℕ
halted = record two { stopped = true }

abbrev traffic : List (Call ℕ)
traffic = pushes 6 ∷ pops ∷ pushes 7 ∷ pushes 8 ∷ pops ∷ []

two-IsBounded : IsBounded two
two-IsBounded = record { positive = omega arith; within = omega arith }

traffic-keeps_items : All (λ c. keeps_items c ≡ true) traffic
traffic-keeps_items = (refl, (refl, (refl, (refl, (refl, tt)))))

run-traffic : run two traffic ≡ record two { items = 8 ∷ []; dropped_count = 2 }
unfolding run step add64
run-traffic = refl

pop-wakes : pop ((pushes 1 ∷ pops ∷ []) ∷ (pushes 9 ∷ []) ∷ []) idle ≡ (some 9, idle)
unfolding pop step
pop-wakes = refl

run-make-IsBounded_example : IsBounded (run (make 0) traffic)
run-make-IsBounded_example = run-make-IsBounded 0 traffic

run-pushes_example : (run two (map pushes (6 ∷ 7 ∷ 8 ∷ []))).items ≡ 7 ∷ 8 ∷ []
run-pushes_example = run-pushes two (6 ∷ 7 ∷ 8 ∷ []) refl two-IsBounded

delivered-order_example :
    Sublist (delivered two traffic ++ (run two traffic).items) (two.items ++ accepted two traffic)
delivered-order_example = delivered-order two traffic

delivered-balance_example :
    ((run two traffic).dropped_count
        + length (delivered two traffic)
        + length (run two traffic).items)
      % word
    ≡ (two.dropped_count + length two.items + length (accepted two traffic)) % word
delivered-balance_example = delivered-balance two traffic traffic-keeps_items two-IsBounded

delivered-stopped_example :
    (accepted halted traffic ≡ [])
    × (delivered halted traffic ++ (run halted traffic).items ≡ 4 ∷ 5 ∷ [])
delivered-stopped_example = delivered-stopped halted traffic traffic-keeps_items refl
