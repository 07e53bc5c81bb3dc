-- ===== src/BoundedQueue.antt =====
-- include/infer_server/common/bounded_queue.h: `BoundedQueue<T>`, the queue that drops its oldest
-- element when it is full. Every method runs under the queue's mutex, so a call is one step; what
-- other threads do while a blocking `pop` waits is an argument of `pop`. `size_t` counts wrap.
pub mod Shape
pub mod Order
pub mod Waiting
mod Tests
use infer_server.Base.{
  ℕ, ◌≡◌, refl, Bool, true, false, not, ◌||◌, List, [], ◌∷◌, ◌++◌, Option, none, some, ltb, leb,
  if◌then◌else◌, length,
}
use infer_server.Base.Word.{add64}

-- The front of the queue is the head of `items`.
pub record BoundedQueue {ℓ} (T : Type ℓ) : Type ℓ where
  pub capacity : ℕ
  pub items : List T
  pub stopped : Bool
  pub dropped_count : ℕ

-- `queue_.pop()`: undefined on an empty queue, where the code never calls it.
abbrev pub without_front {ℓ} : {T : Type ℓ} → List T → List T
without_front [] = []
without_front (x ∷ xs) = xs

abbrev pub is_empty {ℓ} : {T : Type ℓ} → List T → Bool
is_empty [] = true
is_empty (x ∷ xs) = false

-- The constructor.
unfoldable pub make {ℓ} : {T : Type ℓ} → ℕ → BoundedQueue T
make capacity = record {
  capacity = if ltb 0 capacity then capacity else 1;
  items = [];
  stopped = false;
  dropped_count = 0;
}

module _ {ℓ} {T : Type ℓ} where
  -- The move constructor: the new queue, and the old one, whose contents (`left`) the standard
  -- does not say.
  pub moved : List T → BoundedQueue T → BoundedQueue T × BoundedQueue T
  moved left other = (
    record {
      capacity = other.capacity;
      items = other.items;
      stopped = other.stopped;
      dropped_count = other.dropped_count;
    },
    record other { items = left },
  )

  -- The queue when `push` is about to append: the oldest element makes room.
  unfoldable pub make_room : BoundedQueue T → BoundedQueue T
  make_room q =
      if leb q.capacity (length q.items)
      then record q { items = without_front q.items; dropped_count = add64 q.dropped_count 1 }
      else q

  unfoldable pub push : T → BoundedQueue T → BoundedQueue T × Bool
  unfolding make_room
  push item q =
      if q.stopped
      then (q, false)
      else (let r = make_room q in record r { items = r.items ++ item ∷ [] }, true)

  unfoldable pub take_front : BoundedQueue T → List T → Option T × BoundedQueue T
  take_front q [] = (none, q)
  take_front q (x ∷ xs) = (some x, record q { items = xs })

  unfoldable pub try_pop : BoundedQueue T → Option T × BoundedQueue T
  unfolding take_front
  try_pop q = take_front q q.items

  pub size : BoundedQueue T → ℕ
  size q = length q.items

  pub empty : BoundedQueue T → Bool
  empty q = is_empty q.items

  pub full : BoundedQueue T → Bool
  full q = leb q.capacity (length q.items)

  unfoldable pub stop : BoundedQueue T → BoundedQueue T
  stop q = record q { stopped = true }

  unfoldable pub clear : BoundedQueue T → BoundedQueue T
  clear q = record q { items = [] }

  unfoldable pub reset : BoundedQueue T → BoundedQueue T
  reset q = record q { items = []; stopped = false; dropped_count = 0 }

-- The calls that change the queue, as another thread may make them.
pub data Call {ℓ} (T : Type ℓ) : Type ℓ where
  pushes : T → Call T
  pops stops clears resets : Call T

module _ {ℓ} {T : Type ℓ} where
  -- A call's effect on the queue.
  unfoldable pub step : BoundedQueue T → Call T → BoundedQueue T
  unfolding push try_pop stop clear reset
  step q (pushes x) = (push x q).0
  step q pops = (try_pop q).1
  step q stops = stop q
  step q clears = clear q
  step q resets = reset q

  unfoldable pub run : BoundedQueue T → List (Call T) → BoundedQueue T
  run q [] = q
  run q (c ∷ cs) = run (step q c) cs

  -- The predicate that a waiting `pop` waits for.
  unfoldable pub is_ready : BoundedQueue T → Bool
  is_ready q = not (is_empty q.items) || q.stopped

  -- `pop` with a timeout. Each list of calls is what other threads do before this thread holds
  -- the mutex again and tests the predicate; when the lists have run out, so has the time, and
  -- `wait_for` answers with the predicate's last value.
  unfoldable pub pop : List (List (Call T)) → BoundedQueue T → Option T × BoundedQueue T
  unfolding is_ready try_pop run
  pop [] q = if is_ready q then try_pop q else (none, q)
  pop (cs ∷ waits) q = elim (is_ready q) [ true ↦ try_pop q | false ↦ pop waits (run q cs) ]
