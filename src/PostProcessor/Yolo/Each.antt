-- ===== src/PostProcessor/Yolo/Each.antt =====
-- A property of every detection in the lists that the decoders build.
use infer_server.Base.{
  ℕ, zero, suc, ◌≡◌, refl, Bool, true, false, List, [], ◌∷◌, ◌++◌, Option, none, some, ite, length,
  ◌==◌, ◌&&◌, String, String_discrete, if◌then◌else◌, All, All-append,
}
use infer_server.PostProcessor.Yolo.{TensorAttr, collect}
use infer_server.PostProcessor.Yolo.Process.{
  finish, heads_v5, yolov5, heads_v8, yolov8, candidates_v11, yolov11, process,
}
use infer_server.PostProcessor.Float.{FloatOps}
use infer_server.Types.{Detection}
use infer_server.Base.Int.{ℤ}

-- `All`, which does not compute: the lists of the goals are then compared as they are written.
unfoldable pub Each : {A : Type 0} → (A → Type 0) → List A → Type 0
Each P xs = All P xs

pub Each-if :
    {A : Type 0} (P : A → Type 0) (b : Bool) (xs : List A)
    → (b ≡ false → Each P xs)
    → Each P (if b then [] else xs)
unfolding Each
Each-if P true xs h = tt
Each-if P false xs h = h refl

pub Each-one : {A : Type 0} (P : A → Type 0) (x : A) → P x → Each P (x ∷ [])
unfolding Each
Each-one P x h = (h, tt)

pub Each-elim :
    {A B : Type 0} (P : B → Type 0) (o : Option A) (f : A → List B)
    → ((a : A) → Each P (f a))
    → Each P (elim o [ none ↦ [] | some a ↦ f a ])
unfolding Each
Each-elim P none f h = tt
Each-elim P (some a) f h = h a

pub Each-collect :
    {A : Type 0} (P : A → Type 0) (first n : ℕ) (f : ℕ → List A)
    → ((i : ℕ) → Each P (f i))
    → Each P (collect first n f)
unfolding Each collect
Each-collect P first zero f h = tt
Each-collect P first (suc n) f h =
    All-append P (f first) _ (h first) (Each-collect P (suc first) n f h)

pub Each-append :
    {A : Type 0} (P : A → Type 0) (xs ys : List A) → Each P xs → Each P ys → Each P (xs ++ ys)
unfolding Each
Each-append P xs ys h k = All-append P xs ys h k

Each-choice :
    {A : Type 0} (P : A → Type 0) (b : Bool) (xs ys : List A)
    → Each P xs
    → Each P ys
    → Each P (if b then xs else ys)
Each-choice P true xs ys h k = h
Each-choice P false xs ys h k = k

Each-ite :
    {A D : Type 0} (P : A → Type 0) (d : Dec D) (xs ys : List A)
    → Each P xs
    → Each P ys
    → Each P (ite d xs ys)
Each-ite P (yes p) xs ys h k = h
Each-ite P (no n) xs ys h k = k

pub Each-none : {A : Type 0} (P : A → Type 0) → Each P []
unfolding Each
Each-none P = tt

module _ (ops : FloatOps) (sort : List (Detection ops.F) → List (Detection ops.F))
    (model_w model_h orig_w orig_h : ℤ) (conf_thresh nms_thresh : ops.F)
    (labels : List String) where
  open ops use {F}

  abbrev Tensors : Type 0
  Tensors = List (ℕ → F)

  abbrev Attrs : Type 0
  Attrs = List (TensorAttr F)

  -- What holds of all that `finish` makes of each decoder's candidates holds of the result.
  pub process-Each :
      (P : Detection F → Type 0)
      → ((o : Tensors) (a : Attrs)
          → Each P (
              finish ops sort model_w model_h orig_w orig_h conf_thresh nms_thresh labels (
                heads_v5 ops sort model_w model_h orig_w orig_h conf_thresh nms_thresh labels o a)))
      → ((o : Tensors) (a : Attrs)
          → Each P (
              finish ops sort model_w model_h orig_w orig_h conf_thresh nms_thresh labels (
                heads_v8 ops sort model_w model_h orig_w orig_h conf_thresh nms_thresh labels o a)))
      → ((t : ℕ → F) (dims : List ℤ)
          → Each P (
              finish ops sort model_w model_h orig_w orig_h conf_thresh nms_thresh labels (
                candidates_v11 ops sort model_w model_h orig_w orig_h conf_thresh nms_thresh labels
                  t dims)))
      → (model_type : String) (o : Tensors) (a : Attrs)
      → Each P (
          process ops sort model_w model_h orig_w orig_h conf_thresh nms_thresh labels model_type o
            a)
  unfolding process yolov5 yolov8 yolov11
  process-Each P v5 v8 v11 model_type o a =
      let three = length o == 3 && length a == 3 in
      Each-ite P (String_discrete model_type "yolov5") _ _
        (Each-choice P three _ [] (v5 o a) (Each-none P))
        (Each-ite P (String_discrete model_type "yolov8") _ _
          (Each-choice P three _ [] (v8 o a) (Each-none P))
          (Each-ite P (String_discrete model_type "yolov11") _ _ (one o a) (Each-none P)))
    where
      one :
          (o : Tensors) (a : Attrs)
          → Each P
              (yolov11 ops sort model_w model_h orig_w orig_h conf_thresh nms_thresh labels o a)
      one (t ∷ o) (a ∷ rest) = v11 t a.dims
      one [] a = Each-none P
      one (t ∷ o) [] = Each-none P
