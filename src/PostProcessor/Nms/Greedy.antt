-- ===== src/PostProcessor/Nms/Greedy.antt =====
-- The suppression flags against the greedy rule that they implement: keep the most confident
-- detection, drop what overlaps it, and go on with the rest.
use infer_server.Base.{
  ℕ, zero, suc, ◌≤◌, ◌≡◌, refl, ap, ◌∙◌, inl, inr, Bool, true, false, List, [], ◌∷◌, length, arith,
  Bool-cases, All, if◌then◌else◌, length-map,
}
use infer_server.Types.{Detection}
use infer_server.PostProcessor.Float.{FloatOps}
use infer_server.PostProcessor.Nms.{overlaps, mark, sweep, unmarked, nms}

module _ (ops : FloatOps) (threshold : ops.F) where
  open ops use {F, lt}

  -- The detections that a kept one does not suppress.
  unfoldable pub without : Detection F → List (Detection F) → List (Detection F)
  without d [] = []
  without d (e ∷ es) = if overlaps ops threshold d e then without d es else e ∷ without d es

  unfoldable pub greedy : ℕ → List (Detection F) → List (Detection F)
  unfolding without
  greedy zero ds = []
  greedy (suc n) [] = []
  greedy (suc n) (d ∷ ds) = d ∷ greedy n (without d ds)

  -- What is not suppressed yet.
  live : List (Detection F × Bool) → List (Detection F)
  live [] = []
  live ((d, true) ∷ ps) = live ps
  live ((d, false) ∷ ps) = d ∷ live ps

  live-mark :
      (d : Detection F) (ps : List (Detection F × Bool))
      → live (mark ops threshold d ps) ≡ without d (live ps)
  unfolding live mark without
  live-mark d [] = refl
  live-mark d ((e, true) ∷ ps) = live-mark d ps
  live-mark d ((e, false) ∷ ps) = elim (Bool-cases (overlaps ops threshold d e)) [
    | inl over ↦ rw over (live-mark d ps)
    | inr apart ↦ rw apart (ap (◌∷◌ e) (live-mark d ps))
  ]

  length-mark :
      (d : Detection F) (ps : List (Detection F × Bool))
      → length (mark ops threshold d ps) ≡ length ps
  unfolding mark
  length-mark d [] = refl
  length-mark d ((e, s) ∷ ps) = ap suc (length-mark d ps)

  pub length-without-le :
      (d : Detection F) (ds : List (Detection F)) → length (without d ds) ≤ length ds
  unfolding without
  length-without-le d [] = omega arith
  length-without-le d (e ∷ es) = ground (arith, length-without-le d es)

  length-live-le : (ps : List (Detection F × Bool)) → length (live ps) ≤ length ps
  unfolding live
  length-live-le [] = omega arith
  length-live-le ((d, true) ∷ ps) = omega (arith, length-live-le ps)
  length-live-le ((d, false) ∷ ps) = omega (arith, length-live-le ps)

  -- More rounds than detections change nothing.
  greedy-rounds :
      (n m : ℕ) (ds : List (Detection F))
      → length ds ≤ n
      → length ds ≤ m
      → greedy n ds ≡ greedy m ds
  unfolding greedy
  greedy-rounds zero zero ds h k = refl
  greedy-rounds zero (suc m) [] h k = refl
  greedy-rounds zero (suc m) (d ∷ ds) h k = absurd (omega arith)
  greedy-rounds (suc n) zero [] h k = refl
  greedy-rounds (suc n) zero (d ∷ ds) h k = absurd (omega arith)
  greedy-rounds (suc n) (suc m) [] h k = refl
  greedy-rounds (suc n) (suc m) (d ∷ ds) h k =
      let le = length-without-le d ds in
      ap (◌∷◌ d) (greedy-rounds n m (without d ds) (omega arith) (omega arith))

  sweep-greedy :
      (n : ℕ) (ps : List (Detection F × Bool))
      → length ps ≤ n
      → sweep ops threshold n ps ≡ greedy n (live ps)
  unfolding sweep greedy live
  sweep-greedy zero [] h = refl
  sweep-greedy zero (p ∷ ps) h = absurd (omega arith)
  sweep-greedy (suc n) [] h = refl
  sweep-greedy (suc n) ((d, true) ∷ ps) h =
      let le = length-live-le ps in
      sweep-greedy n ps (omega arith)
      ∙ greedy-rounds n (suc n) (live ps) (omega arith) (omega arith)
  sweep-greedy (suc n) ((d, false) ∷ ps) h = ap (◌∷◌ d) (
      sweep-greedy n (mark ops threshold d ps) (omega (arith, length-mark d ps))
      ∙ ap (greedy n) (live-mark d ps))

  live-unmarked : (ds : List (Detection F)) → live (unmarked ops threshold ds) ≡ ds
  unfolding live
  live-unmarked [] = refl
  live-unmarked (d ∷ ds) = ap (◌∷◌ d) (live-unmarked ds)

  -- The routine with its suppression flags computes the greedy rule on the sorted detections.
  pub nms-greedy :
      (sort : List (Detection F) → List (Detection F)) (ds : List (Detection F))
      → nms ops threshold sort ds ≡ greedy (length (sort ds)) (sort ds)
  unfolding nms
  nms-greedy sort ds =
      sweep-greedy (length (sort ds)) (unmarked ops threshold (sort ds)) (
        omega (
          arith,
          length-map {A = Detection F} {B = Detection F × Bool} (λ d. (d, false)) (sort ds),
        ))
      ∙ ap (greedy (length (sort ds))) (live-unmarked (sort ds))

  -- No two detections overlap, neither way that the routine looks.
  abbrev pub Apart : List (Detection F) → Type 0
  Apart [] = Unit {0}
  Apart (d ∷ ds) = All (λ e. overlaps ops threshold d e ≡ false) ds × Apart ds

  without-All :
      (P : Detection F → Type 0) (d : Detection F) (ds : List (Detection F))
      → All P ds
      → All P (without d ds)
  unfolding without
  without-All P d [] h = tt
  without-All P d (e ∷ es) h = elim (Bool-cases (overlaps ops threshold d e)) [
    | inl over ↦ rw over (without-All P d es h.1)
    | inr apart ↦ rw apart (h.0, without-All P d es h.1)
  ]

  greedy-All :
      (P : Detection F → Type 0) (n : ℕ) (ds : List (Detection F)) → All P ds → All P (greedy n ds)
  unfolding greedy
  greedy-All P zero ds h = tt
  greedy-All P (suc n) [] h = tt
  greedy-All P (suc n) (d ∷ ds) h = (h.0, greedy-All P n (without d ds) (without-All P d ds h.1))

  pub nms-All :
      (P : Detection F → Type 0) (sort : List (Detection F) → List (Detection F))
      (ds : List (Detection F))
      → All P (sort ds)
      → All P (nms ops threshold sort ds)
  nms-All P sort ds h = rw (nms-greedy sort ds) (greedy-All P (length (sort ds)) (sort ds) h)

  without-Apart :
      (d : Detection F) (ds : List (Detection F))
      → All (λ e. overlaps ops threshold d e ≡ false) (without d ds)
  unfolding without
  without-Apart d [] = tt
  without-Apart d (e ∷ es) = elim (Bool-cases (overlaps ops threshold d e)) [
    | inl over ↦ rw over (without-Apart d es)
    | inr apart ↦ rw apart (apart, without-Apart d es)
  ]

  greedy-Apart : (n : ℕ) (ds : List (Detection F)) → Apart (greedy n ds)
  unfolding greedy
  greedy-Apart zero ds = tt
  greedy-Apart (suc n) [] = tt
  greedy-Apart (suc n) (d ∷ ds) =
      (greedy-All _ n (without d ds) (without-Apart d ds), greedy-Apart n (without d ds))

  -- In the result no two detections of one class overlap by more than the threshold.
  pub nms-Apart :
      (sort : List (Detection F) → List (Detection F)) (ds : List (Detection F))
      → Apart (nms ops threshold sort ds)
  nms-Apart sort ds = rw (nms-greedy sort ds) (greedy-Apart (length (sort ds)) (sort ds))
