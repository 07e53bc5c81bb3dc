-- ===== src/PostProcessor/Yolo/Confidence.antt =====
-- No detection below the confidence threshold comes out.
use mathlib.Core.List.{Permᴰ}
use mathlib.Core.List.Permᴰ.{symm}
use infer_server.Base.{
  ℕ, ◌+◌, ◌-◌, ◌*◌, ◌/◌, ◌≡◌, String, false, List, [], ◌∷◌, leb, get_elem?, All, map-All,
}
use infer_server.Base.Int.{ℤ, pos_part}
use infer_server.Types.{Detection}
use infer_server.PostProcessor.Float.{FloatOps, scale_coords}
use infer_server.PostProcessor.Nms.Greedy.{nms-All}
use infer_server.PostProcessor.Nms.Coverage.{All-Permᴰ}
use infer_server.PostProcessor.Yolo.{
  TensorAttr, entry_v5, cells_v5, head_v5, entry_v8, cells_v8, head_v8, entry_v11, extents,
}
use infer_server.PostProcessor.Yolo.Each.{
  Each, Each-if, Each-one, Each-elim, Each-collect, Each-append, Each-none, process-Each,
}
use infer_server.PostProcessor.Yolo.Process.{finish, heads_v5, heads_v8, candidates_v11, process}

module _ (ops : FloatOps) (conf_thresh : ops.F) where
  open ops use {F, lt}

  -- The confidence is not below the threshold.
  abbrev pub Confident : Detection F → Type 0
  Confident d = lt d.confidence conf_thresh ≡ false

  module _ (labels : List String) where
    entry_v5-Confident :
        (stride : ℕ) (anchor : ℕ × ℕ) (num_classes x y : ℕ) (entry : ℕ → F)
        → Each Confident (entry_v5 ops conf_thresh labels stride anchor num_classes x y entry)
    unfolding entry_v5
    entry_v5-Confident stride anchor num_classes x y entry =
        search (Each-if Confident, Each-one Confident)

    cells_v5-Confident :
        (stride : ℕ) (anchors : List (ℕ × ℕ)) (h w num_classes : ℕ) (tensor : ℕ → F)
        → Each Confident (cells_v5 ops conf_thresh labels stride anchors h w num_classes tensor)
    unfolding cells_v5
    cells_v5-Confident stride anchors h w num_classes tensor = Each-collect Confident 0 h _ λ y.
        Each-collect Confident 0 w _ λ x. Each-collect Confident 0 3 _ λ a.
          let offset = (y * w * 3 + x * 3 + a) * (5 + num_classes) in
          Each-elim Confident (get_elem? anchors a) _
            λ anchor. entry_v5-Confident stride anchor num_classes x y (λ i. tensor (offset + i))

    head_v5-Confident :
        (stride : ℕ) (anchors : List (ℕ × ℕ)) (tensor : ℕ → F) (attr : TensorAttr F)
        → Each Confident (head_v5 ops conf_thresh labels stride anchors tensor attr)
    unfolding head_v5
    head_v5-Confident stride anchors tensor attr = Each-elim Confident (extents attr.dims) _ λ e.
        Each-if Confident (leb (e.2 / 3 - 5) 0) _
          λ _. cells_v5-Confident stride anchors e.0 e.1 (e.2 / 3 - 5) tensor

    entry_v8-Confident :
        (stride num_classes x y : ℕ) (entry : ℕ → F)
        → Each Confident (entry_v8 ops conf_thresh labels stride num_classes x y entry)
    unfolding entry_v8
    entry_v8-Confident stride num_classes x y entry = search (Each-if Confident, Each-one Confident)

    cells_v8-Confident :
        (stride h w channel : ℕ) (tensor : ℕ → F)
        → Each Confident (cells_v8 ops conf_thresh labels stride h w channel tensor)
    unfolding cells_v8
    cells_v8-Confident stride h w channel tensor = Each-collect Confident 0 h _ λ y.
        Each-collect Confident 0 w _ λ x.
          entry_v8-Confident stride (channel - 64) x y (λ i. tensor ((y * w + x) * channel + i))

    head_v8-Confident :
        (stride : ℕ) (tensor : ℕ → F) (attr : TensorAttr F)
        → Each Confident (head_v8 ops conf_thresh labels stride tensor attr)
    unfolding head_v8
    head_v8-Confident stride tensor attr = Each-elim Confident (extents attr.dims) _ λ e.
        Each-if Confident (leb (e.2 - 64) 0) _ λ _. cells_v8-Confident stride e.0 e.1 e.2 tensor

    entry_v11-Confident :
        (num_classes anchors_total i : ℕ) (tensor : ℕ → F)
        → Each Confident (entry_v11 ops conf_thresh labels num_classes anchors_total i tensor)
    unfolding entry_v11
    entry_v11-Confident num_classes anchors_total i tensor =
        search (Each-if Confident, Each-one Confident)

  -- What the suppression keeps and the scaling moves has the confidence that it had.
  module _ (sort : List (Detection F) → List (Detection F))
      (perm : (ds : List (Detection F)) → Permᴰ (sort ds) ds) (model_w model_h orig_w orig_h : ℤ)
      (nms_thresh : F) (labels : List String) where
    finish-Confident :
        (dets : List (Detection F))
        → Each Confident dets
        → Each Confident
            (finish ops sort model_w model_h orig_w orig_h conf_thresh nms_thresh labels dets)
    unfolding finish scale_coords Each
    finish-Confident dets h = map-All _ Confident _ (
        nms-All ops nms_thresh Confident sort dets
          (All-Permᴰ ops nms_thresh Confident (symm (perm dets)) h))

    -- A decoder's candidates, one after the other.
    heads_v5-Confident :
        (outputs : List (ℕ → F)) (attrs : List (TensorAttr F))
        → Each Confident (
            heads_v5 ops sort model_w model_h orig_w orig_h conf_thresh nms_thresh labels outputs
              attrs)
    unfolding heads_v5
    heads_v5-Confident (t0 ∷ t1 ∷ t2 ∷ []) (a0 ∷ a1 ∷ a2 ∷ []) =
        Each-append Confident _ _ (head_v5-Confident labels 8 _ t0 a0) (
          Each-append Confident _ _ (head_v5-Confident labels 16 _ t1 a1)
            (head_v5-Confident labels 32 _ t2 a2))
    heads_v5-Confident outputs attrs = Each-none Confident

    heads_v8-Confident :
        (outputs : List (ℕ → F)) (attrs : List (TensorAttr F))
        → Each Confident (
            heads_v8 ops sort model_w model_h orig_w orig_h conf_thresh nms_thresh labels outputs
              attrs)
    unfolding heads_v8
    heads_v8-Confident (t0 ∷ t1 ∷ t2 ∷ []) (a0 ∷ a1 ∷ a2 ∷ []) =
        Each-append Confident _ _ (head_v8-Confident labels 8 t0 a0) (
          Each-append Confident _ _ (head_v8-Confident labels 16 t1 a1)
            (head_v8-Confident labels 32 t2 a2))
    heads_v8-Confident outputs attrs = Each-none Confident

    candidates_v11-Confident :
        (tensor : ℕ → F) (dims : List ℤ)
        → Each Confident (
            candidates_v11 ops sort model_w model_h orig_w orig_h conf_thresh nms_thresh labels
              tensor dims)
    unfolding candidates_v11
    candidates_v11-Confident tensor (batch ∷ channels ∷ anchors_total ∷ rest) =
        Each-collect Confident 0 _ _
          λ i. entry_v11-Confident labels (pos_part channels - 4) (pos_part anchors_total) i tensor
    candidates_v11-Confident tensor dims = Each-none Confident

    -- Whatever the model's type and the tensors are, no detection that comes out has a confidence
    -- below the threshold, if `sort` rearranges its list.
    pub process-Confident :
        (model_type : String) (outputs : List (ℕ → F)) (attrs : List (TensorAttr F))
        → All Confident (
            process ops sort model_w model_h orig_w orig_h conf_thresh nms_thresh labels model_type
              outputs attrs)
    unfolding Each
    process-Confident =
        process-Each ops sort model_w model_h orig_w orig_h conf_thresh nms_thresh labels Confident
          (λ o a. finish-Confident _ (heads_v5-Confident o a))
          (λ o a. finish-Confident _ (heads_v8-Confident o a))
          (λ t dims. finish-Confident _ (candidates_v11-Confident t dims))
