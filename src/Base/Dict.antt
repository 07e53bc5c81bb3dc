-- ===== src/Base/Dict.antt =====
-- A map with unique keys as a list of entries: `std::unordered_map`. The order of the entries
-- stands for the order in which an iteration meets them, which the container leaves open.
use infer_server.Base.{
  ℕ, ◌+◌, ap, sym, ◌∙◌, subst, ◌≡◌, refl, ◌≢◌, ite, if_pos, if_neg, Option, none, some, List, [],
  ◌∷◌, arith, Bool, true, false, map,
}

abbrev pub Dict {ℓ} : Type ℓ → Type ℓ → Type ℓ
Dict K V = List (K × V)

module _ {ℓ} {K V : Type ℓ} where
  -- A property of all entries.
  abbrev pub Entries : (K → V → Type ℓ) → Dict K V → Type ℓ
  Entries P [] = Unit
  Entries P ((k, v) ∷ m) = P k v × Entries P m

  -- A sum over the entries.
  unfoldable pub sum_by : (V → ℕ) → Dict K V → ℕ
  sum_by g [] = 0
  sum_by g ((k, v) ∷ m) = g v + sum_by g m

module _ {ℓ} {K V : Type ℓ} (dec : Discrete K) where
  -- `m.find(k)`
  unfoldable pub find : K → Dict K V → Option V
  find k [] = none
  find k ((j, v) ∷ m) = ite (dec j k) (some v) (find k m)

  -- `m[k] = v`
  unfoldable pub insert : K → V → Dict K V → Dict K V
  insert k v [] = (k, v) ∷ []
  insert k v ((j, w) ∷ m) = ite (dec j k) ((k, v) ∷ m) ((j, w) ∷ insert k v m)

  -- `m.erase(k)`
  unfoldable pub erase : K → Dict K V → Dict K V
  erase k [] = []
  erase k ((j, w) ∷ m) = ite (dec j k) m ((j, w) ∷ erase k m)

  -- `m.count(k) > 0`
  unfoldable pub contains : K → Dict K V → Bool
  contains k m = elim (find k m) [ none ↦ false | some _ ↦ true ]

  pub contains-none : (k : K) (m : Dict K V) → find k m ≡ none → contains k m ≡ false
  unfolding contains
  contains-none k m e = ap (λ (o : Option V). elim o [ none ↦ false | some _ ↦ true ]) e

  pub contains-some : (k : K) (m : Dict K V) {v : V} → find k m ≡ some v → contains k m ≡ true
  unfolding contains
  contains-some k m e = ap (λ (o : Option V). elim o [ none ↦ false | some _ ↦ true ]) e

  pub find-insert_self : (k : K) (v : V) (m : Dict K V) → find k (insert k v m) ≡ some v
  unfolding find insert
  find-insert_self k v [] = if_pos (dec k k) refl _ _
  find-insert_self k v ((j, w) ∷ m) = ground (arith, find-insert_self k v m)

  pub find-insert_ne : (k j : K) (v : V) (m : Dict K V) → k ≢ j → find j (insert k v m) ≡ find j m
  unfolding find insert
  find-insert_ne k j v [] h = if_neg (dec k j) h _ _
  find-insert_ne k j v ((i, w) ∷ m) h = ground (arith, find-insert_ne k j v m h)

  pub find-erase_ne : (k j : K) (m : Dict K V) → k ≢ j → find j (erase k m) ≡ find j m
  unfolding find erase
  find-erase_ne k j [] h = refl
  find-erase_ne k j ((i, w) ∷ m) h = ground (arith, find-erase_ne k j m h)

  -- No key twice: the first entry with a key hides no other.
  unfoldable pub IsKeyed : Dict K V → Type ℓ
  IsKeyed [] = Unit
  IsKeyed ((k, v) ∷ m) = (find k m ≡ none) × IsKeyed m

  pub find-erase_self : (k : K) (m : Dict K V) → IsKeyed m → find k (erase k m) ≡ none
  unfolding find erase IsKeyed
  find-erase_self k [] h = refl
  find-erase_self k ((j, w) ∷ m) h = elim (dec j k) [
    | yes e ↦ rw (if_pos _ e) (subst (λ i. find i m ≡ none) e h.0)
    | no n ↦ rw (if_neg (dec j k) n, if_neg (dec j k) n) (find-erase_self k m h.1)
  ]

  pub insert-IsKeyed : (k : K) (v : V) (m : Dict K V) → IsKeyed m → IsKeyed (insert k v m)
  unfolding find insert IsKeyed
  insert-IsKeyed k v [] h = (refl, tt)
  insert-IsKeyed k v ((j, w) ∷ m) h = elim (dec j k) [
    | yes e ↦ rw (if_pos _ e) (subst (λ i. find i m ≡ none) e h.0, h.1)
    | no n ↦
        rw (if_neg (dec j k) n)
          (find-insert_ne k j v m (λ p. n (sym p)) ∙ h.0, insert-IsKeyed k v m h.1)
  ]

  find-erase-none : (k j : K) (m : Dict K V) → find j m ≡ none → find j (erase k m) ≡ none
  unfolding find erase
  find-erase-none k j [] h = refl
  find-erase-none k j ((i, w) ∷ m) h = ground (arith, find-erase-none k j m)

  pub erase-IsKeyed : (k : K) (m : Dict K V) → IsKeyed m → IsKeyed (erase k m)
  unfolding erase IsKeyed
  erase-IsKeyed k [] h = h
  erase-IsKeyed k ((j, w) ∷ m) h = elim (dec j k) [
    | yes e ↦ rw (if_pos _ e) h.1
    | no n ↦ rw (if_neg _ n) (find-erase-none k j m h.0, erase-IsKeyed k m h.1)
  ]

  -- What the first entry says of a lookup.
  pub find-here : (k j : K) (w v : V) (m : Dict K V) → find k ((j, w) ∷ m) ≡ some v → j ≡ k → w ≡ v
  unfolding find
  find-here k j w v m h e = ground arith

  pub find-there :
      (k j : K) (w : V) (m : Dict K V) (o : Option V)
      → find k ((j, w) ∷ m) ≡ o
      → j ≢ k
      → find k m ≡ o
  unfolding find
  find-there k j w m o h n = sym (if_neg (dec j k) n (some w) (find k m)) ∙ h

  find-missed : (k j : K) (w : V) (m : Dict K V) → find k ((j, w) ∷ m) ≡ none → j ≢ k
  unfolding find
  find-missed k j w m h e = ground arith

  pub find-Entries :
      (P : K → V → Type ℓ) (k : K) (m : Dict K V) {v : V} → Entries P m → find k m ≡ some v → P k v
  unfolding find
  find-Entries P k [] h e = cc
  find-Entries P k ((j, w) ∷ m) {v} h e = elim (dec j k) [
    | yes p ↦ subst (λ i. P i v) p (subst (P j) (find-here k j w v m e p) h.0)
    | no n ↦ find-Entries P k m h.1 (find-there k j w m (some v) e n)
  ]

  pub insert-Entries :
      (P : K → V → Type ℓ) (k : K) (v : V) (m : Dict K V)
      → Entries P m
      → P k v
      → Entries P (insert k v m)
  unfolding insert
  insert-Entries P k v [] h p = (p, tt)
  insert-Entries P k v ((j, w) ∷ m) h p = elim (dec j k) [
    | yes e ↦ rw (if_pos _ e) (p, h.1)
    | no n ↦ rw (if_neg _ n) (h.0, insert-Entries P k v m h.1 p)
  ]

  pub erase-Entries :
      (P : K → V → Type ℓ) (k : K) (m : Dict K V) → Entries P m → Entries P (erase k m)
  unfolding erase
  erase-Entries P k [] h = h
  erase-Entries P k ((j, w) ∷ m) h = elim (dec j k) [
    | yes e ↦ rw (if_pos _ e) h.1
    | no n ↦ rw (if_neg _ n) (h.0, erase-Entries P k m h.1)
  ]

  pub sum_by-insert_new :
      (g : V → ℕ) (k : K) (v : V) (m : Dict K V)
      → find k m ≡ none
      → sum_by g (insert k v m) ≡ sum_by g m + g v
  unfolding find insert sum_by
  sum_by-insert_new g k v [] h = omega arith
  sum_by-insert_new g k v ((j, w) ∷ m) h = elim (dec j k) [
    | yes e ↦ absurd (find-missed k j w m h e)
    | no n ↦
        rw (if_neg (dec j k) n)
          (omega (arith, sum_by-insert_new g k v m (find-there k j w m none h n)))
  ]

  pub sum_by-insert :
      (g : V → ℕ) (k : K) (v : V) (m : Dict K V) {w : V}
      → find k m ≡ some w
      → sum_by g (insert k v m) + g w ≡ sum_by g m + g v
  unfolding find insert sum_by
  sum_by-insert g k v [] h = cc
  sum_by-insert g k v ((j, u) ∷ m) {w} h = elim (dec j k) [
    | yes e ↦ rw (if_pos (dec j k) e) (omega (arith, ap g (find-here k j u w m h e)))
    | no n ↦
        rw (if_neg (dec j k) n)
          (omega (arith, sum_by-insert g k v m (find-there k j u m (some w) h n)))
  ]

  pub sum_by-erase :
      (g : V → ℕ) (k : K) (m : Dict K V) {w : V}
      → find k m ≡ some w
      → sum_by g (erase k m) + g w ≡ sum_by g m
  unfolding find erase sum_by
  sum_by-erase g k [] h = cc
  sum_by-erase g k ((j, u) ∷ m) {w} h = elim (dec j k) [
    | yes e ↦ rw (if_pos (dec j k) e) (omega (arith, ap g (find-here k j u w m h e)))
    | no n ↦
        rw (if_neg (dec j k) n)
          (omega (arith, sum_by-erase g k m (find-there k j u m (some w) h n)))
  ]

  pub map-IsKeyed : (f : V → V) (m : Dict K V) → IsKeyed m → IsKeyed (map (λ e. (e.0, f e.1)) m)
  unfolding find IsKeyed
  map-IsKeyed f [] h = tt
  map-IsKeyed f ((k, v) ∷ m) h = (find-map k f m h.0, map-IsKeyed f m h.1)
    where
      find-map :
          (k : K) (f : V → V) (m : Dict K V)
          → find k m ≡ none
          → find k (map (λ e. (e.0, f e.1)) m) ≡ none
      find-map k f [] h = refl
      find-map k f ((j, w) ∷ m) h = elim (dec j k) [
        | yes e ↦ absurd (find-missed k j w m h e)
        | no n ↦ if_neg (dec j k) n _ _ ∙ find-map k f m (find-there k j w m none h n)
      ]

pub map-Entries {ℓ} :
    {K V : Type ℓ} (P Q : K → V → Type ℓ) (f : V → V) (m : Dict K V)
    → ((k : K) (v : V) → P k v → Q k (f v))
    → Entries P m
    → Entries Q (map (λ e. (e.0, f e.1)) m)
map-Entries P Q f [] h e = tt
map-Entries P Q f ((k, v) ∷ m) h e = (h k v e.0, map-Entries P Q f m h e.1)

-- An insertion that changes nothing of what `g` reads leaves the readings as they are.
pub map-insert_same {ℓ κ} :
    {K V : Type ℓ} {B : Type κ} (dec : Discrete K) (g : V → B) (k : K) (v w : V) (m : Dict K V)
    → find dec k m ≡ some w
    → g v ≡ g w
    → map (λ e. g e.1) (insert dec k v m) ≡ map (λ e. g e.1) m
unfolding find insert
map-insert_same dec g k v w [] h e = cc
map-insert_same dec g k v w ((j, u) ∷ m) h e = elim (dec j k) [
  | yes p ↦
      rw (if_pos (dec j k) p)
        (ap (λ b. b ∷ map (λ e. g e.1) m) (e ∙ sym (ap g (find-here dec k j u w m h p))))
  | no n ↦
      rw (if_neg (dec j k) n) (
        ap (λ bs. g u ∷ bs) (map-insert_same dec g k v w m (find-there dec k j u m (some w) h n) e))
]
