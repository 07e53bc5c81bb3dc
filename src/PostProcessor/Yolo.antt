-- ===== src/PostProcessor/Yolo.antt =====
-- The decoding of the output tensors, up to the candidates of one head. A tensor is a function from an index to
-- the value there. An extent of a tensor is
-- an `int`: a loop up to a negative one makes no round. Indices do not overflow an `int`.
pub mod Process
mod Each
pub mod Confidence
pub mod Frame
use infer_server.Base.{
  ℕ, zero, suc, ◌+◌, ◌-◌, ◌*◌, ◌/◌, String, Bool, true, false, List, [], ◌∷◌, ◌++◌, Option, none,
  some, leb, ltb, ite, length, ◌==◌, ◌&&◌, String_discrete, get_elem?, if◌then◌else◌,
}
use infer_server.Base.Int.{ℤ, pos, negsuc, pos_part}
use infer_server.Types.{Detection}
use infer_server.PostProcessor.Float.{FloatOps, sigmoid, dfl_decode, scale_coords}
use infer_server.PostProcessor.Nms.{nms}

pub record TensorAttr (F : Type 0) : Type 0 where
  pub n_elems : ℤ
  pub dims : List ℤ
  pub zp : ℤ
  pub scale : F
  pub is_int8 : Bool

-- `for (int i = first; rounds > 0; i++, rounds--)`, each round of which appends to the result.
unfoldable pub collect {ℓ} : {A : Type ℓ} → ℕ → ℕ → (ℕ → List A) → List A
collect first zero f = []
collect first (suc rounds) f = f first ++ collect (suc first) rounds f

abbrev pub num_anchors : ℕ
num_anchors = 3

abbrev pub reg_max : ℕ
reg_max = 16

abbrev pub box_channels : ℕ
box_channels = 4 * reg_max

-- `labels[c]`, or the empty name.
abbrev pub label : List String → ℕ → String
label labels c = elim (get_elem? labels c) [ none ↦ "" | some l ↦ l ]

-- The extents of a head, if its tensor has four dimensions.
abbrev pub extents : List ℤ → Option (ℕ × ℕ × ℕ)
extents (batch ∷ h ∷ w ∷ c ∷ rest) = some (pos_part h, pos_part w, pos_part c)
extents _ = none

module _ (ops : FloatOps) where
  open ops use {F, half, one, two, minus_one, of_int, add, sub, mul, div, pow, lt}

  abbrev pub of_nat : ℕ → F
  of_nat n = of_int (pos n)

  -- The loop for the best class: the classes from `c` on, against the best so far.
  unfoldable pub best_from : (ℕ → F) → ℕ → ℕ → ℕ × F → ℕ × F
  best_from score c zero best = best
  best_from score c (suc rounds) best =
      best_from score (suc c) rounds (if lt best.1 (score c) then (c, score c) else best)

  -- Class 0 to start with.
  unfoldable pub best_class : (ℕ → F) → ℕ → ℕ × F
  unfolding best_from
  best_class score num_classes = best_from score 1 (num_classes - 1) (0, score 0)

  -- `reg_max` values from `start` on.
  unfoldable pub slice : (ℕ → F) → ℕ → ℕ → List F
  slice entry start zero = []
  slice entry start (suc n) = entry start ∷ slice entry (suc start) n

  module _ (conf_thresh : F) (labels : List String) where
    -- One anchor of a YOLOv5 grid cell.
    unfoldable pub entry_v5 : ℕ → ℕ × ℕ → ℕ → ℕ → ℕ → (ℕ → F) → List (Detection F)
    unfolding best_class
    entry_v5 stride anchor num_classes x y entry =
        let obj_conf = sigmoid ops (entry 4) in
        let best = best_class (λ c. entry (5 + c)) num_classes in
        let final_conf = mul obj_conf (sigmoid ops best.1) in
        let cx =
          mul (add (sub (mul (sigmoid ops (entry 0)) two) half) (of_nat x)) (of_nat stride) in
        let cy =
          mul (add (sub (mul (sigmoid ops (entry 1)) two) half) (of_nat y)) (of_nat stride) in
        let bw = mul (pow (mul (sigmoid ops (entry 2)) two) two) (of_nat anchor.0) in
        let bh = mul (pow (mul (sigmoid ops (entry 3)) two) two) (of_nat anchor.1) in
        let det : Detection F = record {
          class_id = pos best.0;
          class_name = label labels best.0;
          confidence = final_conf;
          bbox = record {
            x1 = sub cx (div bw two);
            y1 = sub cy (div bh two);
            x2 = add cx (div bw two);
            y2 = add cy (div bh two);
          };
        } in
        if lt obj_conf conf_thresh then [] else if lt final_conf conf_thresh then [] else det ∷ []

    unfoldable pub cells_v5 : ℕ → List (ℕ × ℕ) → ℕ → ℕ → ℕ → (ℕ → F) → List (Detection F)
    unfolding collect entry_v5
    cells_v5 stride head_anchors grid_h grid_w num_classes tensor =
        let entry_size = 5 + num_classes in
        collect 0 grid_h λ y. collect 0 grid_w λ x. collect 0 num_anchors λ a.
          let offset = (y * grid_w * num_anchors + x * num_anchors + a) * entry_size in
          elim (get_elem? head_anchors a) [
            | none ↦ []
            | some anchor ↦ entry_v5 stride anchor num_classes x y (λ i. tensor (offset + i))
          ]

    -- One head: none, if its tensor has not four dimensions, or no room for a class.
    unfoldable pub head_v5 : ℕ → List (ℕ × ℕ) → (ℕ → F) → TensorAttr F → List (Detection F)
    unfolding cells_v5
    head_v5 stride head_anchors tensor attr = elim (extents attr.dims) [
      | none ↦ []
      | some (grid_h, grid_w, channel) ↦
          let num_classes = channel / num_anchors - 5 in
          if leb num_classes 0
          then []
          else cells_v5 stride head_anchors grid_h grid_w num_classes tensor
    ]

    -- One grid cell of YOLOv8.
    unfoldable pub entry_v8 : ℕ → ℕ → ℕ → ℕ → (ℕ → F) → List (Detection F)
    unfolding best_class slice
    entry_v8 stride num_classes x y entry =
        let best = best_class (λ c. entry (box_channels + c)) num_classes in
        let best_score = sigmoid ops best.1 in
        let side = λ (k : ℕ).
          mul (dfl_decode ops (entry (k * reg_max)) (slice entry (k * reg_max + 1) (reg_max - 1)))
            (of_nat stride) in
        let cx = mul (add (of_nat x) half) (of_nat stride) in
        let cy = mul (add (of_nat y) half) (of_nat stride) in
        let det : Detection F = record {
          class_id = pos best.0;
          class_name = label labels best.0;
          confidence = best_score;
          bbox = record {
            x1 = sub cx (side 0);
            y1 = sub cy (side 1);
            x2 = add cx (side 2);
            y2 = add cy (side 3);
          };
        } in
        if lt best_score conf_thresh then [] else det ∷ []

    unfoldable pub cells_v8 : ℕ → ℕ → ℕ → ℕ → (ℕ → F) → List (Detection F)
    unfolding collect entry_v8
    cells_v8 stride grid_h grid_w channel tensor = collect 0 grid_h λ y. collect 0 grid_w λ x.
        let offset = (y * grid_w + x) * channel in
        entry_v8 stride (channel - box_channels) x y (λ i. tensor (offset + i))

    unfoldable pub head_v8 : ℕ → (ℕ → F) → TensorAttr F → List (Detection F)
    unfolding cells_v8
    head_v8 stride tensor attr = elim (extents attr.dims) [
      | none ↦ []
      | some (grid_h, grid_w, channel) ↦
          if leb (channel - box_channels) 0
          then []
          else cells_v8 stride grid_h grid_w channel tensor
    ]

    -- The loop for the best class of YOLOv11, which starts with class -1 and score -1.
    unfoldable pub best_v11 : (ℕ → F) → ℕ → ℕ → Option ℕ × F → Option ℕ × F
    best_v11 score c zero best = best
    best_v11 score c (suc rounds) best =
        best_v11 score (suc c) rounds (if lt best.1 (score c) then (some c, score c) else best)

    abbrev pub class_of : Option ℕ → ℤ
    class_of none = negsuc 0
    class_of (some c) = pos c

    -- For class -1 the code reads `labels[-1]` if there are labels, which is undefined: no name here.
    abbrev pub name_of : Option ℕ → String
    name_of none = ""
    name_of (some c) = label labels c

    -- One anchor of YOLOv11.
    unfoldable pub entry_v11 : ℕ → ℕ → ℕ → (ℕ → F) → List (Detection F)
    unfolding best_v11
    entry_v11 num_classes anchors_total i tensor =
        let best =
          best_v11 (λ c. tensor ((4 + c) * anchors_total + i)) 0 num_classes (none, minus_one) in
        let cx = tensor (0 * anchors_total + i) in
        let cy = tensor (1 * anchors_total + i) in
        let w = tensor (2 * anchors_total + i) in
        let h = tensor (3 * anchors_total + i) in
        let det : Detection F = record {
          class_id = class_of best.0;
          class_name = name_of best.0;
          confidence = best.1;
          bbox = record {
            x1 = sub cx (mul w half);
            y1 = sub cy (mul h half);
            x2 = add cx (mul w half);
            y2 = add cy (mul h half);
          };
        } in
        if lt best.1 conf_thresh then [] else det ∷ []
