-- ===== src/PostProcessor/Nms.antt =====
-- Non-maximum suppression: `PostProcessor::nms`. `sort` stands for the call of `std::sort`.
pub mod Greedy
pub mod Coverage
use infer_server.Base.{
  ℕ, zero, suc, Bool, true, false, List, [], ◌∷◌, map, length, ◌&&◌, ◌||◌, if◌then◌else◌,
}
use infer_server.Base.Int.{eq_ℤ}
use infer_server.Types.{Detection}
use infer_server.PostProcessor.Float.{FloatOps, iou}

module _ (ops : FloatOps) (threshold : ops.F) where
  open ops use {F, lt}

  -- The test of the inner loop, for two detections of which neither is suppressed.
  unfoldable pub overlaps : Detection F → Detection F → Bool
  overlaps d e = eq_ℤ d.class_id e.class_id && lt threshold (iou ops d.bbox e.bbox)

  -- The inner loop: a detection, and whether it is suppressed.
  unfoldable pub mark : Detection F → List (Detection F × Bool) → List (Detection F × Bool)
  mark d [] = []
  mark d ((e, suppressed) ∷ rest) = (e, suppressed || overlaps d e) ∷ mark d rest

  -- The outer loop, over the rounds that are left.
  unfoldable pub sweep : ℕ → List (Detection F × Bool) → List (Detection F)
  unfolding mark
  sweep zero ps = []
  sweep (suc n) [] = []
  sweep (suc n) ((d, suppressed) ∷ rest) = elim suppressed [
    | true ↦ sweep n rest
    | false ↦ d ∷ sweep n (mark d rest)
  ]

  abbrev pub unmarked : List (Detection F) → List (Detection F × Bool)
  unmarked = map (λ d. (d, false))

  unfoldable pub nms :
      (List (Detection F) → List (Detection F)) → List (Detection F) → List (Detection F)
  unfolding sweep
  nms sort detections = let sorted = sort detections in sweep (length sorted) (unmarked sorted)
