-- ===== src/InferenceEngine/Ownership.antt =====
-- No context of the runtime is lost in any history of the engine.
use infer_server.Base.{
  ℕ, ◌+◌, ◌≡◌, ◌≢◌, ◌∙◌, sym, subst, if_true, if_false, Bool, true, inl, inr, List, [], ◌∷◌, arith,
  Bool-cases,
}
use infer_server.Base.Dict.{sum_by}
use infer_server.Types.{Detection, ServerConfig}
use infer_server.ModelManager.{unload_all}
use infer_server.ModelManager.Contexts.{opened, closed, held_masters}
use infer_server.PostProcessor.Float.{FloatOps}
use infer_server.InferenceEngine.{InferenceEngine, Round, shutdown, make, set_result_callback}
use infer_server.InferenceEngine.Workers.{sum_each}
use infer_server.InferenceEngine.Contexts.{
  held, Balance, IsOwned, init-IsOwned, load_one-IsOwned, submit-IsOwned,
}
use infer_server.InferenceEngine.Rounds.{work-Balance, work-All}
use infer_server.InferenceEngine.Shutdown.{shutdown-even}
use infer_server.InferenceEngine.History.{
  Call, inits, loads, collects, submits, works, calls_back, shuts_down, step, run,
}

module _ (ops : FloatOps) (sort : List (Detection ops.F) → List (Detection ops.F)) (c : ℕ)
    (nz : c ≢ 0) where
  open ops use {F}

  shutdown-IsOwned :
      (rounds : ℕ → List (Round F)) (closes : Bool) (e : InferenceEngine F)
      → IsOwned c e
      → IsOwned c (shutdown ops sort rounds closes e)
  unfolding shutdown Balance held held_masters sum_each unload_all sum_by
  shutdown-IsOwned rounds closes e h = elim (Bool-cases e.initialized) [
    | inl i ↦
        let even = shutdown-even ops sort c nz rounds closes e h i in
        subst (IsOwned c) (sym (if_true _ _ i)) (record {
          balance =
              subst (λ (d : InferenceEngine F). opened c d.native_calls ≡ closed c d.native_calls)
                (if_true _ _ i) even
              ∙ omega arith;
          working = tt;
        })
    | inr i ↦ subst (IsOwned c) (sym (if_false _ _ i)) h
  ]

  step-IsOwned :
      (call : Call F) (e : InferenceEngine F) → IsOwned c e → IsOwned c (step ops sort call e)
  unfolding step set_result_callback Balance held
  step-IsOwned (inits beyond binds) e h = init-IsOwned c nz beyond binds e h
  step-IsOwned (loads w mc) e h = load_one-IsOwned c nz w mc e h
  step-IsOwned (collects number collector) e h = record { balance = h.balance; working = h.working }
  step-IsOwned (submits task) e h = submit-IsOwned c nz task e h
  step-IsOwned (works round) e h = record {
    balance = work-Balance ops sort c round e nz h.balance;
    working = work-All ops sort _ round e (λ v runs. runs) h.working;
  }
  step-IsOwned calls_back e h = record { balance = h.balance; working = h.working }
  step-IsOwned (shuts_down rounds closes) e h = shutdown-IsOwned rounds closes e h

  run-IsOwned :
      (calls : List (Call F)) (e : InferenceEngine F)
      → IsOwned c e
      → IsOwned c (run ops sort calls e)
  unfolding run
  run-IsOwned [] e h = h
  run-IsOwned (call ∷ calls) e h = run-IsOwned calls _ (step-IsOwned call e h)

  make-IsOwned : (config : ServerConfig) → IsOwned {F = F} c (make config)
  unfolding make Balance held held_masters sum_each sum_by
  make-IsOwned config = record { balance = omega arith; working = tt }

  -- After any history of a new engine, with every answer of the runtime and any interleaving of the
  -- workers, a context has been opened as often as it has been destroyed and is held by a loaded
  -- model or a worker together: none is lost, on error paths neither.
  pub run-make-Balance :
      (config : ServerConfig) (calls : List (Call F))
      → opened c (run ops sort calls (make config)).native_calls
        ≡ closed c (run ops sort calls (make config)).native_calls
          + held c (run ops sort calls (make config))
  unfolding Balance
  run-make-Balance config calls = (run-IsOwned calls (make config) (make-IsOwned config)).balance

  -- If the engine is initialised after such a history, its shutdown leaves no context open,
  -- whatever rounds the workers still make: each was destroyed as often as it was opened.
  pub shutdown-run-even :
      (config : ServerConfig) (calls : List (Call F)) (rounds : ℕ → List (Round F)) (closes : Bool)
      → (run ops sort calls (make config)).initialized ≡ true
      → opened c (shutdown ops sort rounds closes (run ops sort calls (make config))).native_calls
        ≡ closed c (shutdown ops sort rounds closes (run ops sort calls (make config))).native_calls
  shutdown-run-even config calls rounds closes i =
      shutdown-even ops sort c nz rounds closes _
        (run-IsOwned calls (make config) (make-IsOwned config)) i
