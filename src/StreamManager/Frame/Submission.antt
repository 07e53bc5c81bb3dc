-- ===== src/StreamManager/Frame/Submission.antt =====
-- What becomes of a frame for several models: the tasks that are submitted, and whether the results
-- that the workers return for them are ever published.
use infer_server.Base.{
  ℕ, zero, suc, ◌≤◌, ◌<◌, ◌≡◌, refl, ap, ◌∙◌, inl, inr, Bool, true, false, List, [], ◌∷◌, Option,
  none, some, arith, Option-cases, length, take, leb, ◌&&◌, if◌then◌else◌,
}
use infer_server.Base.Int.{ℤ}
use infer_server.Types.{ModelConfig, ModelResult, DecodedFrame}
use infer_server.FrameResultCollector.{make}
use infer_server.FrameResultCollector.Completion.{published, published-make, with_results}
use infer_server.StreamManager.{StreamContext, Devices}
use infer_server.StreamManager.Frame.{rgb_of, tasks_of, base_result}

module _ {F : Type 0} (dev : Devices) (orig_w orig_h : ℤ) (ctx : StreamContext F)
    (frame : DecodedFrame) where
  abbrev works : Option (List ℕ) → Bool
  works none = false
  works (some rgb) = true

  -- A picture can be made for every model.
  unfoldable pub all_pictures : List (ModelConfig F) → Bool
  all_pictures [] = true
  all_pictures (mc ∷ models) = works (rgb_of dev orig_w orig_h ctx frame mc) && all_pictures models

  -- There is a task for every model exactly if there is a picture for every one, and never more.
  length-tasks_of :
      (a : Option ℕ) (models : List (ModelConfig F))
      → (length (tasks_of dev orig_w orig_h ctx frame a models) ≤ length models)
        × (leb (length models) (length (tasks_of dev orig_w orig_h ctx frame a models))
            ≡ all_pictures models)
  unfolding tasks_of all_pictures
  length-tasks_of a [] = (omega arith, refl)
  length-tasks_of a (mc ∷ models) =
      let rest = length-tasks_of a models in
      elim (Option-cases (rgb_of dev orig_w orig_h ctx frame mc)) [
        | inl fails ↦ rw fails (ground (arith, rest.0), ground (arith, rest.0))
        | inr (rgb, made) ↦ rw made (ground (arith, rest.0), ground (arith, rest.0, rest.1))
      ]

  take_all : {A : Type 0} (n : ℕ) (xs : List A) → length xs ≤ n → take n xs ≡ xs
  take_all zero [] h = refl
  take_all zero (x ∷ xs) h = absurd (omega (arith, h))
  take_all (suc n) [] h = refl
  take_all (suc n) (x ∷ xs) h = ap (◌∷◌ x) (take_all n xs (omega (arith, h)))

  -- For a frame with several models: if the workers return one result for each task, in any order,
  -- then the frame is
  -- published once, with all of them, if a picture could be made for every model; if one could not,
  -- the results of the other models are never published.
  pub submitted-published :
      (a : Option ℕ) (models : List (ModelConfig F)) (rs : List (ModelResult F))
      → 1 < length models
      → length rs ≡ length (tasks_of dev orig_w orig_h ctx frame a models)
      → published (make (length models) (base_result dev orig_w orig_h ctx.config frame)) rs ≡ (
          if all_pictures models
          then with_results (base_result dev orig_w orig_h ctx.config frame) rs ∷ []
          else [])
  unfolding base_result
  submitted-published a models rs h e =
      let (few, all) = length-tasks_of a models in
      let base = base_result dev orig_w orig_h ctx.config frame in
      published-make (length models) base rs (omega (arith, h))
      ∙ rw (take_all (length models) rs (omega (arith, few, e)), e, all) refl
