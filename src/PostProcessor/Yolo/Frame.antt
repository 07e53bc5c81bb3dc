-- ===== src/PostProcessor/Yolo/Frame.antt =====
-- The boxes that come out lie within the frame.
use infer_server.Base.{ℕ, ◌≡◌, inl, inr, String, true, false, List, [], ◌∷◌, Bool-cases, All}
use infer_server.Base.Int.{ℤ}
use infer_server.Types.{BBox, Detection}
use infer_server.PostProcessor.Float.{FloatOps, max, min, clip, scale_box, scale_coords}
use infer_server.PostProcessor.Nms.{nms}
use infer_server.PostProcessor.Yolo.{TensorAttr}
use infer_server.PostProcessor.Yolo.Each.{Each, process-Each}
use infer_server.PostProcessor.Yolo.Process.{finish, process}

module _ (ops : FloatOps) where
  open ops use {F, lt, zero_f, of_int}

  -- Neither below zero nor above the bound.
  abbrev pub Within : F → F → Type 0
  Within bound v = (lt v zero_f ≡ false) × (lt bound v ≡ false)

  abbrev pub InFrame : F → F → BBox F → Type 0
  InFrame w h b = Within w b.x1 × Within h b.y1 × Within w b.x2 × Within h b.y2

  module _ (irrefl : (a : F) → lt a a ≡ false)
      (asym : (a b : F) → lt a b ≡ true → lt b a ≡ false) where
    clip-Within : (bound v : F) → lt bound zero_f ≡ false → Within bound (clip ops bound v)
    unfolding clip max min
    clip-Within bound v h = elim (Bool-cases (lt bound v)) [
      | inl above ↦ elim (Bool-cases (lt zero_f bound)) [
        | inl room ↦ rw (above, room) (asym zero_f bound room, irrefl bound)
        | inr none_left ↦ rw (above, none_left) (irrefl zero_f, h)
      ]
      | inr below ↦ elim (Bool-cases (lt zero_f v)) [
        | inl room ↦ rw (below, room) (asym zero_f v room, below)
        | inr none_left ↦ rw (below, none_left) (irrefl zero_f, h)
      ]
    ]

    module _ (sort : List (Detection F) → List (Detection F)) (model_w model_h orig_w orig_h : ℤ)
        (conf_thresh nms_thresh : F) (labels : List String)
        (wide : lt (of_int orig_w) zero_f ≡ false) (high : lt (of_int orig_h) zero_f ≡ false) where
      abbrev In : Detection F → Type 0
      In d = InFrame (of_int orig_w) (of_int orig_h) d.bbox

      finish-In :
          (dets : List (Detection F))
          → Each In
              (finish ops sort model_w model_h orig_w orig_h conf_thresh nms_thresh labels dets)
      unfolding finish scale_coords scale_box Each
      finish-In dets = go (nms ops nms_thresh sort dets)
        where
          go :
              (ds : List (Detection F)) → All In (scale_coords ops model_w model_h orig_w orig_h ds)
          go [] = tt
          go (d ∷ ds) = (
            (
              clip-Within _ _ wide,
              clip-Within _ _ high,
              clip-Within _ _ wide,
              clip-Within _ _ high,
            ),
            go ds,
          )

      -- Whatever the model's type and the tensors are, every box that comes out lies within the
      -- frame, if `<` is irreflexive and asymmetric and the frame's size is not below zero.
      pub process-InFrame :
          (model_type : String) (outputs : List (ℕ → F)) (attrs : List (TensorAttr F))
          → All In (
              process ops sort model_w model_h orig_w orig_h conf_thresh nms_thresh labels
                model_type outputs attrs)
      unfolding Each
      process-InFrame =
          process-Each ops sort model_w model_h orig_w orig_h conf_thresh nms_thresh labels In
            (λ o a. finish-In _) (λ o a. finish-In _) (λ t dims. finish-In _)
