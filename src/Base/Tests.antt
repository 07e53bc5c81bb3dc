-- ===== src/Base/Tests.antt =====
-- Boolean tests on the native numbers, the conditional, and the decision of equal texts.
use Prim.Native.Nat.{ℕ, compare, Ordering}
use Prim.Native.String.{String}
use mathlib.Core.Path.{◌≡◌, refl}
use mathlib.Core.Logic.{◌⊎◌, inl, inr}
use mathlib.Core.Bool.{Bool, true, false}
use mathlib.Core.Option.{Option, none, some}
use native.Mathlib.Omega.{arith}
use text.Mathlib.Text.{◌==◌ as str_eq}
use text.Mathlib.TextEquality.{eq_iff}

abbrev pub ltb : ℕ → ℕ → Bool
ltb a b = elim (compare a b) [ Ordering.lt ↦ true | _ ↦ false ]

abbrev pub leb : ℕ → ℕ → Bool
leb a b = elim (compare a b) [ Ordering.gt ↦ false | _ ↦ true ]

infix 50 ◌==◌
abbrev pub ◌==◌ : ℕ → ℕ → Bool
a == b = elim (compare a b) [ Ordering.eq ↦ true | _ ↦ false ]

infix 1 if◌then◌else◌
abbrev pub if◌then◌else◌ {ℓ} : {A : Type ℓ} → Bool → A → A → A
if true then x else y = x
if false then x else y = y

-- To split on a computed value and keep the equation.
pub Bool-cases : (b : Bool) → (b ≡ true) ⊎ (b ≡ false)
Bool-cases true = inl refl
Bool-cases false = inr refl

-- The branch that a known test takes, where `rw` would rewrite more than the test.
pub if_true {ℓ} : {A : Type ℓ} {b : Bool} (x y : A) → b ≡ true → (if b then x else y) ≡ x
if_true x y e = rw e refl

pub if_false {ℓ} : {A : Type ℓ} {b : Bool} (x y : A) → b ≡ false → (if b then x else y) ≡ y
if_false x y e = rw e refl

pub Option-cases {ℓ} : {A : Type ℓ} (o : Option A) → (o ≡ none) ⊎ ((a : A) × (o ≡ some a))
Option-cases none = inl refl
Option-cases (some a) = inr (a, refl)

-- A comparison of two texts, as a decision.
decide_eq : (s t : String) (b : Bool) → str_eq s t ≡ b → Dec (s ≡ t)
decide_eq s t true e = yes ((eq_iff s t).0 e)
decide_eq s t false e = no λ p. ground (arith, eq_iff s t, e, p)

unfoldable pub String_discrete : Discrete String
unfolding decide_eq
String_discrete s t = decide_eq s t (str_eq s t) refl
