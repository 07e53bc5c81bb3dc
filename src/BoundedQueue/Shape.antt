-- ===== src/BoundedQueue/Shape.antt =====
-- The bound of the queue, and what it holds after pushes: always the newest elements.
use infer_server.Base.{
  ℕ, suc, ◌+◌, ◌-◌, ◌≤◌, ◌<◌, ◌≡◌, refl, ap, false, List, [], ◌∷◌, ◌++◌, append_assoc, append-nil,
  arith, dec_lt, length, drop, length-append, map, sym, ◌∙◌,
}
use infer_server.BoundedQueue.{
  BoundedQueue, Call, pushes, pops, stops, clears, resets, make, push, take_front, step, run,
  without_front,
}

-- There is room for one element at least, and never more elements than room.
pub record IsBounded {ℓ} {T : Type ℓ} (q : BoundedQueue T) : Type 0 where
  pub positive : 0 < q.capacity
  pub within : length q.items ≤ q.capacity

pub make-IsBounded {ℓ} : (T : Type ℓ) (capacity : ℕ) → IsBounded (make {T = T} capacity)
unfolding make
make-IsBounded T capacity = ground arith

module _ {ℓ} {T : Type ℓ} where
  length-without_front-le : (xs : List T) → length (without_front xs) ≤ length xs
  length-without_front-le [] = omega arith
  length-without_front-le (x ∷ xs) = omega arith

  pub length-without_front :
      (xs : List T) → 0 < length xs → length (without_front xs) + 1 ≡ length xs
  length-without_front [] h = absurd (omega arith)
  length-without_front (x ∷ xs) h = omega arith

  push-IsBounded : (x : T) (q : BoundedQueue T) → IsBounded q → IsBounded (push x q).0
  unfolding push
  push-IsBounded x q h = ground (
    arith,
    length-append (without_front q.items) (x ∷ []),
    length-append q.items (x ∷ []),
    length-without_front q.items,
  )

  take_front-IsBounded :
      (q : BoundedQueue T) (xs : List T)
      → q.items ≡ xs
      → IsBounded q
      → IsBounded (take_front q xs).1
  unfolding take_front
  take_front-IsBounded q [] e h = h
  take_front-IsBounded q (x ∷ xs) e h = record {
    positive = h.positive;
    within = omega (arith, ap length e);
  }

  -- Every call keeps the queue within its bound.
  pub step-IsBounded : (q : BoundedQueue T) (c : Call T) → IsBounded q → IsBounded (step q c)
  unfolding step
  step-IsBounded q (pushes x) h = push-IsBounded x q h
  step-IsBounded q pops h = take_front-IsBounded q q.items refl h
  step-IsBounded q stops h = record { positive = h.positive; within = h.within }
  step-IsBounded q clears h = record { positive = h.positive; within = omega arith }
  step-IsBounded q resets h = record { positive = h.positive; within = omega arith }

  pub run-IsBounded : (q : BoundedQueue T) (cs : List (Call T)) → IsBounded q → IsBounded (run q cs)
  unfolding run
  run-IsBounded q [] h = h
  run-IsBounded q (c ∷ cs) h = run-IsBounded (step q c) cs (step-IsBounded q c h)

  -- A queue that is constructed, whatever capacity is asked for, and then used in any way by any
  -- threads has room for one element at least and never holds more than it has room for.
  pub run-make-IsBounded : (capacity : ℕ) (cs : List (Call T)) → IsBounded (run (make capacity) cs)
  run-make-IsBounded capacity cs = run-IsBounded (make capacity) cs (make-IsBounded T capacity)

  drop_eq : (k l : ℕ) {xs ys : List T} → k ≡ l → xs ≡ ys → drop k xs ≡ drop l ys
  drop_eq k l p e = rw (p, e)

  -- `push` appends, and lets the oldest element go if there is no room.
  pub push-room :
      (x : T) (q : BoundedQueue T)
      → q.stopped ≡ false
      → length q.items < q.capacity
      → (push x q).0.items ≡ q.items ++ x ∷ []
  unfolding push
  push-room x q h lt = ground arith

  pub push-full :
      (x y : T) (ys : List T) (q : BoundedQueue T)
      → q.stopped ≡ false
      → q.items ≡ y ∷ ys
      → q.capacity ≤ suc (length ys)
      → (push x q).0.items ≡ ys ++ x ∷ []
  unfolding push
  push-full x y ys q h e le = ground arith

  push_items_full :
      (q : BoundedQueue T) (x : T) (xs rest : List T)
      → q.items ≡ xs
      → q.stopped ≡ false
      → IsBounded q
      → q.capacity ≤ length xs
      → drop (length (push x q).0.items + length rest - q.capacity) ((push x q).0.items ++ rest)
        ≡ drop (length xs + suc (length rest) - q.capacity) (xs ++ x ∷ rest)
  push_items_full q x [] rest e h b le = absurd (omega arith)
  push_items_full q x (y ∷ ys) rest e h b le =
      let within : suc (length ys) ≤ q.capacity = omega (arith, ap length e) in
      rw (push-full x y ys q h e le) (
        drop_eq _ (length rest) (omega (arith, length-append ys (x ∷ [])))
          (append_assoc ys (x ∷ []) rest)
        ∙ drop_eq (suc (length rest)) _ {ys = y ∷ (ys ++ x ∷ rest)} (omega arith) refl)

  push_items :
      (q : BoundedQueue T) (x : T) (xs rest : List T)
      → q.items ≡ xs
      → q.stopped ≡ false
      → IsBounded q
      → drop (length (push x q).0.items + length rest - q.capacity) ((push x q).0.items ++ rest)
        ≡ drop (length xs + suc (length rest) - q.capacity) (xs ++ x ∷ rest)
  push_items q x xs rest e h b = elim (dec_lt (length xs) q.capacity) [
    | yes lt ↦
        rw (push-room x q h (rw e lt), e)
          (drop_eq _ _ (omega (arith, length-append xs (x ∷ []))) (append_assoc xs (x ∷ []) rest))
    | no full ↦ push_items_full q x xs rest e h b (omega arith)
  ]

  push-keeps :
      (q : BoundedQueue T) (x : T)
      → ((push x q).0.stopped ≡ q.stopped) × ((push x q).0.capacity ≡ q.capacity)
  unfolding push
  push-keeps q x = ground arith

  -- Real-time delivery: after any number of pushes on a queue that is not stopped, the queue holds
  -- the newest elements of all that it held and was given, as many as it has room for, oldest first.
  pub run-pushes :
      (q : BoundedQueue T) (xs : List T)
      → q.stopped ≡ false
      → IsBounded q
      → (run q (map pushes xs)).items
        ≡ drop (length q.items + length xs - q.capacity) (q.items ++ xs)
  unfolding run step
  run-pushes q [] h b = sym (drop_eq _ 0 (omega arith) (append-nil q.items))
  run-pushes q (x ∷ xs) h b =
      let (s, c) = push-keeps q x in
      run-pushes (push x q).0 xs (s ∙ h) (push-IsBounded x q b)
      ∙ rw c (push_items q x q.items xs refl h b)
