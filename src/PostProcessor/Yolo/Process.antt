-- ===== src/PostProcessor/Yolo/Process.antt =====
-- The three decoders with their heads, suppression and scaling, and the dispatch on the model's type.
use infer_server.Base.{
  ℕ, ◌-◌, String, List, [], ◌∷◌, ◌++◌, ite, length, ◌==◌, ◌&&◌, String_discrete, if◌then◌else◌,
}
use infer_server.Base.Int.{ℤ, pos_part}
use infer_server.Types.{Detection}
use infer_server.PostProcessor.Float.{FloatOps, scale_coords}
use infer_server.PostProcessor.Nms.{nms}
use infer_server.PostProcessor.Yolo.{TensorAttr, collect, head_v5, head_v8, entry_v11}

module _ (ops : FloatOps) where
  open ops use {F}

  -- `nms` and then `scale_coords`, with which every decoder ends.
  module _ (sort : List (Detection F) → List (Detection F)) (model_w model_h orig_w orig_h : ℤ)
      (conf_thresh nms_thresh : F) (labels : List String) where
    unfoldable pub finish : List (Detection F) → List (Detection F)
    finish dets = scale_coords ops model_w model_h orig_w orig_h (nms ops nms_thresh sort dets)

    -- The loop over the three heads.
    unfoldable pub heads_v5 : List (ℕ → F) → List (TensorAttr F) → List (Detection F)
    heads_v5 (t0 ∷ t1 ∷ t2 ∷ []) (a0 ∷ a1 ∷ a2 ∷ []) =
        head_v5 ops conf_thresh labels 8 ((10, 13) ∷ (16, 30) ∷ (33, 23) ∷ []) t0 a0
        ++ (head_v5 ops conf_thresh labels 16 ((30, 61) ∷ (62, 45) ∷ (59, 119) ∷ []) t1 a1
            ++ head_v5 ops conf_thresh labels 32 ((116, 90) ∷ (156, 198) ∷ (373, 326) ∷ []) t2 a2)
    heads_v5 outputs attrs = []

    unfoldable pub yolov5 : List (ℕ → F) → List (TensorAttr F) → List (Detection F)
    unfolding finish heads_v5
    yolov5 outputs attrs =
        if length outputs == 3 && length attrs == 3 then finish (heads_v5 outputs attrs) else []

    unfoldable pub heads_v8 : List (ℕ → F) → List (TensorAttr F) → List (Detection F)
    heads_v8 (t0 ∷ t1 ∷ t2 ∷ []) (a0 ∷ a1 ∷ a2 ∷ []) =
        head_v8 ops conf_thresh labels 8 t0 a0
        ++ (head_v8 ops conf_thresh labels 16 t1 a1 ++ head_v8 ops conf_thresh labels 32 t2 a2)
    heads_v8 outputs attrs = []

    unfoldable pub yolov8 : List (ℕ → F) → List (TensorAttr F) → List (Detection F)
    unfolding finish heads_v8
    yolov8 outputs attrs =
        if length outputs == 3 && length attrs == 3 then finish (heads_v8 outputs attrs) else []

    -- All anchors of the one tensor. The code reads `dims[1]` and `dims[2]` without a test of their
    -- number: with fewer its behaviour is undefined, and the model finds nothing.
    unfoldable pub candidates_v11 : (ℕ → F) → List ℤ → List (Detection F)
    unfolding collect
    candidates_v11 tensor (batch ∷ channels ∷ anchors_total ∷ rest) =
        collect 0 (pos_part anchors_total) λ i.
          entry_v11 ops conf_thresh labels (pos_part channels - 4) (pos_part anchors_total) i tensor
    candidates_v11 tensor dims = []

    unfoldable pub yolov11 : List (ℕ → F) → List (TensorAttr F) → List (Detection F)
    unfolding finish candidates_v11
    yolov11 (tensor ∷ outputs) (attr ∷ attrs) = finish (candidates_v11 tensor attr.dims)
    yolov11 outputs attrs = []

    unfoldable pub process : String → List (ℕ → F) → List (TensorAttr F) → List (Detection F)
    unfolding yolov5 yolov8 yolov11
    process model_type outputs attrs =
        ite (String_discrete model_type "yolov5") (yolov5 outputs attrs) (
          ite (String_discrete model_type "yolov8") (yolov8 outputs attrs)
            (ite (String_discrete model_type "yolov11") (yolov11 outputs attrs) []))
