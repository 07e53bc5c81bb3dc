-- ===== src/BoundedQueue/Waiting.antt =====
-- The blocking `pop`: when it gives up, and what it returns.
use infer_server.Base.{◌≡◌, true, false, Bool, List, [], ◌∷◌, if◌then◌else◌}
use infer_server.BoundedQueue.{BoundedQueue, Call, run}

module _ {ℓ} {T : Type ℓ} where
  -- Something is there or the queue has been stopped: what a waiting thread is to be woken by.
  abbrev pub wakes : List T → Bool → Bool
  wakes [] stopped = stopped
  wakes (x ∷ xs) stopped = true

  -- The queue as the waiting thread finds it when it stops waiting: at the first moment at which
  -- something is there or the queue has been stopped, or when the time has run out.
  unfoldable pub settled : List (List (Call T)) → BoundedQueue T → BoundedQueue T
  settled [] q = q
  settled (cs ∷ waits) q =
      let rest = settled waits (run q cs) in if wakes q.items q.stopped then q else rest

  -- The queue at each moment at which the thread could test the predicate.
  unfoldable pub moments : List (List (Call T)) → BoundedQueue T → List (BoundedQueue T)
  moments [] q = q ∷ []
  moments (cs ∷ waits) q = q ∷ moments waits (run q cs)

  -- Nothing is there, and the queue runs.
  abbrev pub Sleeps : BoundedQueue T → Type 0
  Sleeps q = wakes q.items q.stopped ≡ false
