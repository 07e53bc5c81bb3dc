-- ===== src/PostProcessor/Nms/Coverage.antt =====
-- Nothing is suppressed without a reason: a more confident detection that is kept.
use mathlib.Core.List.{Permᴰ, Sublist, nil-sublist}
use mathlib.Core.List.Sublist
use infer_server.Base.{
  ℕ, zero, suc, ◌≤◌, ◌≡◌, refl, subst, ◌⊎◌, inl, inr, true, false, List, [], ◌∷◌, length, arith,
  Bool-cases, All, Any,
}
use infer_server.Types.{Detection}
use infer_server.PostProcessor.Float.{FloatOps}
use infer_server.PostProcessor.Nms.{overlaps, nms}
use infer_server.PostProcessor.Nms.Greedy.{without, greedy, length-without-le, nms-greedy}

module _ (ops : FloatOps) (threshold : ops.F) where
  open ops use {F, lt}

  -- The detection itself, or one of its class that overlaps it and is not less confident.
  abbrev pub Covers : Detection F → Detection F → Type 0
  Covers e r =
      (r ≡ e) ⊎ ((overlaps ops threshold r e ≡ true) × (lt r.confidence e.confidence ≡ false))

  -- The most confident first: what the comparison given to `std::sort` asks for.
  abbrev pub ByConfidence : List (Detection F) → Type 0
  ByConfidence [] = Unit {0}
  ByConfidence (d ∷ ds) = All (λ e. lt d.confidence e.confidence ≡ false) ds × ByConfidence ds

  without-All :
      (P : Detection F → Type 0) (d : Detection F) (ds : List (Detection F))
      → All P ds
      → All P (without ops threshold d ds)
  unfolding without
  without-All P d [] h = tt
  without-All P d (e ∷ es) h = elim (Bool-cases (overlaps ops threshold d e)) [
    | inl over ↦ rw over (without-All P d es h.1)
    | inr apart ↦ rw apart (h.0, without-All P d es h.1)
  ]

  without-ByConfidence :
      (d : Detection F) (ds : List (Detection F))
      → ByConfidence ds
      → ByConfidence (without ops threshold d ds)
  unfolding without
  without-ByConfidence d [] h = tt
  without-ByConfidence d (e ∷ es) h = elim (Bool-cases (overlaps ops threshold d e)) [
    | inl over ↦ rw over (without-ByConfidence d es h.1)
    | inr apart ↦ rw apart (without-All _ d es h.0, without-ByConfidence d es h.1)
  ]

  -- What covers all that stays covers the rest too, with the detection that removed it.
  cover_removed :
      (d : Detection F) (ds kept : List (Detection F))
      → All (λ e. lt d.confidence e.confidence ≡ false) ds
      → All (λ e. Any (Covers e) kept) (without ops threshold d ds)
      → All (λ e. Any (Covers e) (d ∷ kept)) ds
  unfolding without
  cover_removed d [] kept c h = tt
  cover_removed d (e ∷ es) kept c h = elim (Bool-cases (overlaps ops threshold d e)) [
    | inl over ↦ (inl (inr (over, c.0)), cover_removed d es kept c.1 (rw over at h))
    | inr apart ↦
        let (h', rest) : Any (Covers e) kept
            × All (λ e. Any (Covers e) kept) (without ops threshold d es) =
          rw apart at h in
        (inr h', cover_removed d es kept c.1 rest)
  ]

  greedy-Covers :
      (n : ℕ) (ds : List (Detection F))
      → length ds ≤ n
      → ByConfidence ds
      → All (λ e. Any (Covers e) (greedy ops threshold n ds)) ds
  unfolding greedy
  greedy-Covers zero [] h c = tt
  greedy-Covers zero (d ∷ ds) h c = absurd (omega arith)
  greedy-Covers (suc n) [] h c = tt
  greedy-Covers (suc n) (d ∷ ds) h c =
      let le = length-without-le ops threshold d ds in
      (
        inl (inl refl),
        cover_removed d ds (greedy ops threshold n (without ops threshold d ds)) c.0 (
            greedy-Covers n (without ops threshold d ds) (omega arith)
              (without-ByConfidence d ds c.1)),
      )

  without-sublist :
      (d : Detection F) (ds : List (Detection F)) → Sublist (without ops threshold d ds) ds
  unfolding without
  without-sublist d [] = nil-sublist []
  without-sublist d (e ∷ es) = elim (Bool-cases (overlaps ops threshold d e)) [
    | inl over ↦ rw over (Sublist.cons e (without-sublist d es))
    | inr apart ↦ rw apart (Sublist.cons-cons e (without-sublist d es))
  ]

  greedy-sublist : (n : ℕ) (ds : List (Detection F)) → Sublist (greedy ops threshold n ds) ds
  unfolding greedy
  greedy-sublist zero ds = nil-sublist ds
  greedy-sublist (suc n) [] = nil-sublist []
  greedy-sublist (suc n) (d ∷ ds) =
      Sublist.cons-cons d (Sublist.trans (greedy-sublist n _) (without-sublist d ds))

  pub All-Permᴰ :
      {ds es : List (Detection F)} (P : Detection F → Type 0) → Permᴰ ds es → All P ds → All P es
  All-Permᴰ P Permᴰ.nil h = h
  All-Permᴰ P (Permᴰ.cons e p) h = (subst P e h.0, All-Permᴰ P p h.1)
  All-Permᴰ P (Permᴰ.swap e e') h = (subst P e' h.1.0, (subst P e h.0, h.1.1))
  All-Permᴰ P (Permᴰ.trans p q) h = All-Permᴰ P q (All-Permᴰ P p h)

  -- If `sort` rearranges its list, the most confident first, then the result is what is left of the
  -- sorted detections, in that order, and each detection that was given is in the result or
  -- overlaps one of its class there that is not less confident.
  pub nms-Covers :
      (sort : List (Detection F) → List (Detection F))
      → ((ds : List (Detection F)) → Permᴰ (sort ds) ds)
      → ((ds : List (Detection F)) → ByConfidence (sort ds))
      → (ds : List (Detection F))
      → Sublist (nms ops threshold sort ds) (sort ds)
        × All (λ e. Any (Covers e) (nms ops threshold sort ds)) ds
  nms-Covers sort perm sorted ds = rw (nms-greedy ops threshold sort ds) (
    greedy-sublist _ (sort ds),
    All-Permᴰ (λ e. Any (Covers e) (greedy ops threshold (length (sort ds)) (sort ds))) (perm ds)
        (greedy-Covers (length (sort ds)) (sort ds) (omega arith) (sorted ds)),
  )
