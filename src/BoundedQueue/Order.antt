-- ===== src/BoundedQueue/Order.antt =====
-- The histories of a queue: what its pushes hand in and its pops hand out, in which order, and
-- how many elements are lost on the way.
use mathlib.Core.List.{Sublist}
use mathlib.Core.List.Sublist
use mathlib.Core.List.{nil-sublist, sublist-cons_self}
use infer_server.Base.{
  ◌+◌, ◌%◌, ◌≡◌, ◌⊎◌, inl, inr, refl, ap, true, false, List, [], ◌∷◌, ◌++◌, Option, none, some,
  append_assoc, append-nil, arith, length, length-append, if◌then◌else◌, All, Bool,
}
use infer_server.Base.Word.{word, add64}
use infer_server.BoundedQueue.Shape.{IsBounded, step-IsBounded, length-without_front}
use infer_server.BoundedQueue.{
  BoundedQueue, Call, pushes, pops, stops, clears, resets, push, try_pop, take_front, step, run,
  without_front,
}

abbrev pub to_list {ℓ} : {A : Type ℓ} → Option A → List A
to_list none = []
to_list (some a) = a ∷ []

module _ {ℓ} {T : Type ℓ} where
  -- What a call hands out.
  unfoldable pub handed_out : BoundedQueue T → Call T → List T
  handed_out q pops = to_list (try_pop q).0
  handed_out q c = []

  -- What a call hands in: the element of a push that the queue took.
  unfoldable pub handed_in : BoundedQueue T → Call T → List T
  handed_in q (pushes x) = if (push x q).1 then x ∷ [] else []
  handed_in q c = []

  unfoldable pub delivered : BoundedQueue T → List (Call T) → List T
  delivered q [] = []
  delivered q (c ∷ cs) = handed_out q c ++ delivered (step q c) cs

  unfoldable pub accepted : BoundedQueue T → List (Call T) → List T
  accepted q [] = []
  accepted q (c ∷ cs) = handed_in q c ++ accepted (step q c) cs

  -- The calls that throw elements away without counting them.
  abbrev pub keeps_items : Call T → Bool
  keeps_items clears = false
  keeps_items resets = false
  keeps_items c = true

  without_front-sublist : (xs : List T) → Sublist (without_front xs) xs
  without_front-sublist [] = nil-sublist []
  without_front-sublist (x ∷ xs) = sublist-cons_self x xs

  -- What `push` does on each branch: refuse, append, or append in place of the oldest.
  push-cases :
      (x : T) (q : BoundedQueue T)
      → (((push x q).0.items ≡ q.items) × ((push x q).1 ≡ false))
        ⊎ (((push x q).0.items ≡ q.items ++ x ∷ []) × ((push x q).1 ≡ true))
        ⊎ (((push x q).0.items ≡ without_front q.items ++ x ∷ []) × ((push x q).1 ≡ true))
  unfolding push
  push-cases x q = ground arith

  take_front-items :
      (q : BoundedQueue T) (xs : List T)
      → q.items ≡ xs
      → to_list (take_front q xs).0 ++ (take_front q xs).1.items ≡ xs
  unfolding take_front
  take_front-items q [] e = e
  take_front-items q (x ∷ xs) e = refl

  push-order :
      (x : T) (q : BoundedQueue T) → Sublist (push x q).0.items (q.items ++ handed_in q (pushes x))
  unfolding handed_in
  push-order x q = elim (push-cases x q) [
    | inl (e, r) ↦ rw (e, r, append-nil) (Sublist.refl _)
    | inr (inl (e, r)) ↦ rw (e, r) (Sublist.refl _)
    | inr (inr (e, r)) ↦
        rw (e, r) (Sublist.append (without_front-sublist q.items) (Sublist.refl (x ∷ [])))
  ]

  step-order :
      (q : BoundedQueue T) (c : Call T)
      → Sublist (handed_out q c ++ (step q c).items) (q.items ++ handed_in q c)
  unfolding step handed_out handed_in
  step-order q (pushes x) = push-order x q
  step-order q pops = rw (take_front-items q q.items refl, append-nil) (Sublist.refl _)
  step-order q stops = rw append-nil (Sublist.refl _)
  step-order q clears = nil-sublist _
  step-order q resets = nil-sublist _

  -- First in, first out: over any history of calls, what was delivered and then what is left is
  -- a subsequence, in the same order, of what the queue held and then accepted.
  pub delivered-order :
      (q : BoundedQueue T) (cs : List (Call T))
      → Sublist (delivered q cs ++ (run q cs).items) (q.items ++ accepted q cs)
  unfolding delivered accepted run
  delivered-order q [] = rw append-nil (Sublist.refl _)
  delivered-order q (c ∷ cs) = rw (append_assoc (handed_out q c)) (
      Sublist.trans (Sublist.append (Sublist.refl (handed_out q c)) (delivered-order (step q c) cs))
        (rw (← append_assoc (handed_out q c) (step q c).items, ← append_assoc q.items)
          (Sublist.append (step-order q c) (Sublist.refl _))))

  push-balance :
      (x : T) (q : BoundedQueue T)
      → IsBounded q
      → ((push x q).0.dropped_count + length (push x q).0.items) % word
        ≡ (q.dropped_count + length q.items + length (handed_in q (pushes x))) % word
  unfolding push handed_in add64
  push-balance x q b = ground (
    arith,
    length-append (without_front q.items) (x ∷ []),
    length-append q.items (x ∷ []),
    length-without_front q.items,
  )

  take_front-dropped :
      (q : BoundedQueue T) (xs : List T) → (take_front q xs).1.dropped_count ≡ q.dropped_count
  unfolding take_front
  take_front-dropped q [] = refl
  take_front-dropped q (x ∷ xs) = refl

  step-balance :
      (q : BoundedQueue T) (c : Call T)
      → keeps_items c ≡ true
      → IsBounded q
      → ((step q c).dropped_count + length (handed_out q c) + length (step q c).items) % word
        ≡ (q.dropped_count + length q.items + length (handed_in q c)) % word
  unfolding step handed_out handed_in
  step-balance q (pushes x) h b = omega (arith, push-balance x q b)
  step-balance q pops h b = omega (
    arith,
    take_front-dropped q q.items,
    ap length (take_front-items q q.items refl),
    length-append (to_list (try_pop q).0) (try_pop q).1.items,
  )
  step-balance q stops h b = omega arith
  step-balance q clears h b = cc
  step-balance q resets h b = cc

  -- Nothing is lost without being counted: over any history that neither clears nor resets the
  -- queue, what was delivered, what is left and what was dropped make up what the queue held,
  -- had dropped before, and accepted. The counter is a 64-bit word.
  pub delivered-balance :
      (q : BoundedQueue T) (cs : List (Call T))
      → All (λ c. keeps_items c ≡ true) cs
      → IsBounded q
      → ((run q cs).dropped_count + length (delivered q cs) + length (run q cs).items) % word
        ≡ (q.dropped_count + length q.items + length (accepted q cs)) % word
  unfolding delivered accepted run
  delivered-balance q [] h b = omega arith
  delivered-balance q (c ∷ cs) h b = omega (
    arith,
    step-balance q c h.0 b,
    delivered-balance (step q c) cs h.1 (step-IsBounded q c b),
    length-append (handed_out q c) (delivered (step q c) cs),
    length-append (handed_in q c) (accepted (step q c) cs),
  )

  stopped_push :
      (x : T) (q : BoundedQueue T)
      → q.stopped ≡ true
      → ((push x q).0.stopped ≡ true)
        × (handed_in q (pushes x) ≡ [])
        × ((push x q).0.items ≡ q.items)
  unfolding push handed_in
  stopped_push x q e = ground arith

  take_front-stopped :
      (q : BoundedQueue T) (xs : List T) → q.stopped ≡ true → (take_front q xs).1.stopped ≡ true
  unfolding take_front
  take_front-stopped q [] e = e
  take_front-stopped q (x ∷ xs) e = e

  step-stop :
      (q : BoundedQueue T) (c : Call T)
      → keeps_items c ≡ true
      → q.stopped ≡ true
      → ((step q c).stopped ≡ true)
        × (handed_in q c ≡ [])
        × (handed_out q c ++ (step q c).items ≡ q.items)
  unfolding step handed_out handed_in
  step-stop q (pushes x) h e = stopped_push x q e
  step-stop q pops h e = (take_front-stopped q q.items e, refl, take_front-items q q.items refl)
  step-stop q stops h e = (refl, refl, refl)
  step-stop q clears h e = cc
  step-stop q resets h e = cc

  -- Graceful shutdown: once stopped, and until it is cleared or reset, the queue accepts nothing,
  -- and its pops deliver exactly what it held, in order, as far as they come.
  pub delivered-stopped :
      (q : BoundedQueue T) (cs : List (Call T))
      → All (λ c. keeps_items c ≡ true) cs
      → q.stopped ≡ true
      → (accepted q cs ≡ []) × (delivered q cs ++ (run q cs).items ≡ q.items)
  unfolding delivered accepted run
  delivered-stopped q [] h e = (refl, refl)
  delivered-stopped q (c ∷ cs) h e =
      let (s, i, o) = step-stop q c h.0 e in
      let (a, d) = delivered-stopped (step q c) cs h.1 s in
      (rw (i, a), rw (append_assoc (handed_out q c), d) o)
