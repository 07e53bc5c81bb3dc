-- ===== src/StreamManager/Manager/Saves.antt =====
-- `save_configs` as two steps: it takes a snapshot of the configurations under the manager's mutex and
-- writes it to the file without. Threads that save at the same time may write in any order.
mod Tests
use infer_server.Base.{
  ◌≡◌, Bool, true, false, ℕ, zero, suc, List, [], ◌∷◌, ◌++◌, Option, none, some, if◌then◌else◌,
}
use infer_server.Types.{StreamConfig}
use infer_server.StreamManager.{Devices}
use infer_server.StreamManager.Manager.{StreamManager, World, get_all_configs}
use infer_server.StreamManager.Manager.History.{Call, step}
use infer_server.StreamManager.Manager.Persistence.{Unchanged, IsQuiet}

-- The snapshots that were taken and not written yet, in the order in which they were taken.
pub record Saves (F : Type 0) : Type 0 where
  pub manager : StreamManager F
  pub snapshots : List (List (StreamConfig F))

-- A call but for its save, a save's snapshot, and the write of one of the snapshots, which may fail.
pub data Turn (F : Type 0) : Type 0 where
  acts : World → Call F → Turn F
  snaps : Turn F
  writes : ℕ → Bool → Turn F

-- An element of a list, and the others.
unfoldable pub pick : {A : Type 0} → ℕ → List A → Option (A × List A)
pick n [] = none
pick zero (x ∷ xs) = some (x, xs)
pick (suc n) (x ∷ xs) = elim (pick n xs) [ none ↦ none | some (y, ys) ↦ some (y, x ∷ ys) ]

module _ {F : Type 0} (dev : Devices) where
  unfoldable pub turn : Turn F → Saves F → Saves F
  unfolding step get_all_configs pick
  turn (acts w call) s = record s { manager = step dev (record w { saves = false }) call s.manager }
  turn snaps s = record s { snapshots = s.snapshots ++ get_all_configs s.manager ∷ [] }
  turn (writes n saves) s = elim (pick n s.snapshots) [
    | none ↦ s
    | some (configs, rest) ↦ record {
      manager = if saves then record s.manager { saved = configs } else s.manager;
      snapshots = rest;
    }
  ]

  unfoldable pub run_turns : List (Turn F) → Saves F → Saves F
  unfolding turn
  run_turns [] s = s
  run_turns (t ∷ turns) s = run_turns turns (turn t s)

  -- What the file holds once the snapshots are written in their order.
  newest : List (StreamConfig F) → List (List (StreamConfig F)) → List (StreamConfig F)
  newest saved [] = saved
  newest saved (c ∷ snapshots) = newest c snapshots

  abbrev IsNewest : Saves F → Type 0
  IsNewest s = newest s.manager.saved s.snapshots ≡ get_all_configs s.manager

  -- A turn that neither adds nor removes a stream, and writes only the oldest of the snapshots, with
  -- success.
  abbrev pub IsOrderly : Turn F → Type 0
  IsOrderly (acts w call) = IsQuiet call
  IsOrderly snaps = Unit
  IsOrderly (writes n saves) = (n ≡ 0) × (saves ≡ true)
