-- ===== src/InferenceEngine/Workers.antt =====
-- Lists of workers, of which one is replaced.
use infer_server.Base.{
  ℕ, zero, suc, ◌+◌, ◌≡◌, refl, ap, subst, true, false, inl, inr, ◌⊎◌, List, [], ◌∷◌, some, arith,
  length, get_elem?, All, none,
}
use infer_server.Base.Dict.{sum_by}
use infer_server.InferWorker.{InferWorker}
use infer_server.InferWorker.Contexts.{held_contexts}
use infer_server.InferenceEngine.{set_at}

pub length-set_at {ℓ} :
    {A : Type ℓ} (i : ℕ) (x : A) (xs : List A) → length (set_at i x xs) ≡ length xs
unfolding set_at
length-set_at i x [] = refl
length-set_at zero x (y ∷ ys) = refl
length-set_at (suc i) x (y ∷ ys) = ap suc (length-set_at i x ys)

pub All-set_at {ℓ κ} :
    {A : Type ℓ} (P : A → Type κ) (i : ℕ) (x : A) (xs : List A)
    → All P xs
    → P x
    → All P (set_at i x xs)
unfolding set_at
All-set_at P i x [] h p = tt
All-set_at P zero x (y ∷ ys) h p = (p, h.1)
All-set_at P (suc i) x (y ∷ ys) h p = (h.0, All-set_at P i x ys h.1 p)

some_inj {ℓ} : {A : Type ℓ} {a b : A} → some a ≡ some b → a ≡ b
some_inj e = cc

pub All-get {ℓ κ} :
    {A : Type ℓ} (P : A → Type κ) (i : ℕ) (xs : List A) {x : A}
    → All P xs
    → get_elem? xs i ≡ some x
    → P x
All-get P i [] h e = cc
All-get P zero (y ∷ ys) h e = subst P (some_inj e) h.0
All-get P (suc i) (y ∷ ys) h e = All-get P i ys h.1 e

-- A sum over the workers.
unfoldable pub sum_each : (InferWorker → ℕ) → List InferWorker → ℕ
sum_each f [] = 0
sum_each f (v ∷ workers) = f v + sum_each f workers

pub sum_each-set_at :
    (f : InferWorker → ℕ) (i : ℕ) (v v' : InferWorker) (workers : List InferWorker)
    → get_elem? workers i ≡ some v
    → sum_each f (set_at i v' workers) + f v ≡ sum_each f workers + f v'
unfolding sum_each set_at
sum_each-set_at f i v v' [] e = cc
sum_each-set_at f zero v v' (u ∷ workers) e = omega (arith, ap f (some_inj e))
sum_each-set_at f (suc i) v v' (u ∷ workers) e = omega (arith, sum_each-set_at f i v v' workers e)

-- How many of the workers' models have the context.
abbrev pub held_each : ℕ → List InferWorker → ℕ
held_each c workers = sum_each (held_contexts c) workers

abbrev pub Running : InferWorker → Type 0
Running v = v.running ≡ true

-- A worker that does not run has no contexts.
abbrev pub Tidy : InferWorker → Type 0
Tidy v = Running v ⊎ (v.contexts ≡ [])

-- The first `n` of the workers do not run.
abbrev pub Rest : ℕ → List InferWorker → Type 0
Rest zero workers = Unit
Rest (suc n) [] = Unit
Rest (suc n) (v ∷ workers) = (v.running ≡ false) × Rest n workers

-- A worker that runs is not among them.
pub Rest-set_at :
    (n i : ℕ) (v v' : InferWorker) (workers : List InferWorker)
    → get_elem? workers i ≡ some v
    → v.running ≡ true
    → Rest n workers
    → Rest n (set_at i v' workers)
unfolding set_at
Rest-set_at zero i v v' workers e r h = tt
Rest-set_at (suc n) i v v' [] e r h = tt
Rest-set_at (suc n) zero v v' (u ∷ workers) e r h = cc
Rest-set_at (suc n) (suc i) v v' (u ∷ workers) e r h = (h.0, Rest-set_at n i v v' workers e r h.1)

pub Rest-stop :
    (n : ℕ) (v : InferWorker) (workers : List InferWorker)
    → v.running ≡ false
    → Rest n workers
    → Rest (suc n) (set_at n v workers)
unfolding set_at
Rest-stop n v [] r h = tt
Rest-stop zero v (u ∷ workers) r h = (r, tt)
Rest-stop (suc n) v (u ∷ workers) r h = (h.0, Rest-stop n v workers r h.1)

pub Rest-end :
    (n : ℕ) (workers : List InferWorker)
    → get_elem? workers n ≡ none
    → Rest n workers
    → Rest (suc n) workers
Rest-end zero [] e h = tt
Rest-end zero (u ∷ workers) e h = cc
Rest-end (suc n) [] e h = tt
Rest-end (suc n) (u ∷ workers) e h = (h.0, Rest-end n workers e h.1)

-- If none of the workers runs, none holds a context.
pub held_each-Rest :
    (c : ℕ) (workers : List InferWorker)
    → All Tidy workers
    → Rest (length workers) workers
    → held_each c workers ≡ 0
unfolding sum_each held_contexts sum_by
held_each-Rest c [] t h = refl
held_each-Rest c (v ∷ workers) (inl runs, t) h = cc
held_each-Rest c (v ∷ workers) (inr none_left, t) h =
    rw none_left (omega (arith, held_each-Rest c workers t h.1))
