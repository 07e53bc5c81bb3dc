-- ===== src/PostProcessor/Tests.antt =====
-- A run of the post-processor in fixed-point arithmetic, and its theorems at concrete inputs.
use mathlib.Core.List.{Permᴰ, Sublist}
use infer_server.Base.{
  ℕ, ◌≡◌, refl, inl, inr, true, false, List, [], ◌∷◌, none, some, arith, ltb, if◌then◌else◌, length,
  get_elem?, All, Any, Bool-cases, String_discrete,
}
use infer_server.Base.Int.{pos}
use infer_server.Types.{BBox, Detection}
use infer_server.PostProcessor.Float.{iou, max, min, clip, scale_box, scale_coords}
use infer_server.Samples.{halves}
use infer_server.PostProcessor.Nms.{overlaps, mark, sweep, nms}
use infer_server.PostProcessor.Nms.Greedy.{greedy, nms-greedy, Apart, nms-Apart}
use infer_server.PostProcessor.Nms.Coverage.{Covers, ByConfidence, nms-Covers}
use infer_server.PostProcessor.Yolo.{TensorAttr, collect, best_v11, entry_v11}
use infer_server.PostProcessor.Yolo.Process.{finish, candidates_v11, yolov11, process}
use infer_server.PostProcessor.Yolo.Confidence.{Confident, process-Confident}
use infer_server.PostProcessor.Yolo.Frame.{InFrame, process-InFrame}

abbrev Found : Type 0
Found = Detection ℕ

-- Insertion after the more confident ones.
unfoldable place : Found → List Found → List Found
place d [] = d ∷ []
place d (e ∷ es) = if ltb d.confidence e.confidence then e ∷ place d es else d ∷ e ∷ es

unfoldable sorted : List Found → List Found
unfolding place
sorted [] = []
sorted (d ∷ ds) = place d (sorted ds)

Permᴰ-refl : (ds : List Found) → Permᴰ ds ds
Permᴰ-refl [] = Permᴰ.nil
Permᴰ-refl (d ∷ ds) = Permᴰ.cons refl (Permᴰ-refl ds)

place-Permᴰ : (d : Found) (ds : List Found) → Permᴰ (place d ds) (d ∷ ds)
unfolding place
place-Permᴰ d [] = Permᴰ-refl (d ∷ [])
place-Permᴰ d (e ∷ es) = elim (Bool-cases (ltb d.confidence e.confidence)) [
  | inl less ↦ rw less (Permᴰ.trans (Permᴰ.cons refl (place-Permᴰ d es)) (Permᴰ.swap refl refl))
  | inr not_less ↦ rw not_less (Permᴰ-refl (d ∷ e ∷ es))
]

sorted-Permᴰ : (ds : List Found) → Permᴰ (sorted ds) ds
unfolding sorted
sorted-Permᴰ [] = Permᴰ.nil
sorted-Permᴰ (d ∷ ds) = Permᴰ.trans (place-Permᴰ d (sorted ds)) (Permᴰ.cons refl (sorted-Permᴰ ds))

NotMore : ℕ → Found → Type 0
NotMore c e = ltb c e.confidence ≡ false

NotMore-trans :
    (c c' : ℕ) (es : List Found) → ltb c c' ≡ false → All (NotMore c') es → All (NotMore c) es
unfolding NotMore
NotMore-trans c c' [] h k = tt
NotMore-trans c c' (e ∷ es) h k = (ground (arith, k.0), NotMore-trans c c' es h k.1)

place-All : (P : Found → Type 0) (d : Found) (es : List Found) → P d → All P es → All P (place d es)
unfolding place
place-All P d [] p h = (p, tt)
place-All P d (e ∷ es) p h = elim (Bool-cases (ltb d.confidence e.confidence)) [
  | inl less ↦ rw less (h.0, place-All P d es p h.1)
  | inr not_less ↦ rw not_less (p, h)
]

place-ByConfidence :
    (d : Found) (ds : List Found) → ByConfidence halves 0 ds → ByConfidence halves 0 (place d ds)
unfolding place NotMore
place-ByConfidence d [] h = (tt, tt)
place-ByConfidence d (e ∷ es) h = elim (Bool-cases (ltb d.confidence e.confidence)) [
  | inl less ↦ rw less (
    place-All (NotMore e.confidence) d es (ground (arith, less)) h.0,
    place-ByConfidence d es h.1,
  )
  | inr not_less ↦
      rw not_less ((not_less, NotMore-trans d.confidence e.confidence es not_less h.0), h)
]

sorted-ByConfidence : (ds : List Found) → ByConfidence halves 0 (sorted ds)
unfolding sorted
sorted-ByConfidence [] = tt
sorted-ByConfidence (d ∷ ds) = place-ByConfidence d (sorted ds) (sorted-ByConfidence ds)

abbrev box : ℕ → ℕ → ℕ → ℕ → BBox ℕ
box left top right bottom = record { x1 = left; y1 = top; x2 = right; y2 = bottom }

abbrev hit : ℕ → ℕ → BBox ℕ → Found
hit class score b = record { class_id = pos class; class_name = ""; confidence = score; bbox = b }

-- The second overlaps the third, the first is of another class.
abbrev hits : List Found
hits =
    hit 1 3 (box 0 0 10 10)
    ∷ hit 0 5 (box 0 0 10 10)
    ∷ hit 0 9 (box 0 1 10 10)
    ∷ hit 0 1 (box 20 20 30 30)
    ∷ []

nms-hits :
    nms halves 0 sorted hits
    ≡ hit 0 9 (box 0 1 10 10) ∷ hit 1 3 (box 0 0 10 10) ∷ hit 0 1 (box 20 20 30 30) ∷ []
unfolding nms sweep mark overlaps iou max min sorted place
nms-hits = refl

nms-greedy_example : nms halves 0 sorted hits ≡ greedy halves 0 (length (sorted hits)) (sorted hits)
nms-greedy_example = nms-greedy halves 0 sorted hits

nms-Apart_example : Apart halves 0 (nms halves 0 sorted hits)
nms-Apart_example = nms-Apart halves 0 sorted hits

nms-Covers_example :
    Sublist (nms halves 0 sorted hits) (sorted hits)
    × All (λ e. Any (Covers halves 0 e) (nms halves 0 sorted hits)) hits
nms-Covers_example = nms-Covers halves 0 sorted sorted-Permᴰ sorted-ByConfidence hits

-- Three anchors of a YOLOv11 model with two classes, for a frame of ten pixels each way. The second
-- is below the threshold, the third reaches out of the frame.
abbrev values : List ℕ
values = 4 ∷ 6 ∷ 18 ∷ 4 ∷ 6 ∷ 18 ∷ 4 ∷ 4 ∷ 9 ∷ 4 ∷ 4 ∷ 9 ∷ 1 ∷ 0 ∷ 2 ∷ 2 ∷ 0 ∷ 1 ∷ []

abbrev tensor : ℕ → ℕ
tensor i = elim (get_elem? values i) [ none ↦ 0 | some v ↦ v ]

abbrev attr : TensorAttr ℕ
attr = record {
  n_elems = pos 18;
  dims = pos 1 ∷ pos 6 ∷ pos 3 ∷ [];
  zp = pos 0;
  scale = 2;
  is_int8 = false;
}

abbrev detections : List Found
detections =
    process halves sorted (pos 10) (pos 10) (pos 10) (pos 10) 1 0 ("cat" ∷ "dog" ∷ []) "yolov11"
      (tensor ∷ []) (attr ∷ [])

process_run :
    detections
    ≡ record { class_id = pos 1; class_name = "dog"; confidence = 2; bbox = box 2 2 6 6 }
      ∷ record { class_id = pos 0; class_name = "cat"; confidence = 2; bbox = box 14 14 20 20 }
      ∷ []
unfolding process yolov11 candidates_v11 collect entry_v11 best_v11 finish nms sweep mark overlaps
    iou sorted place scale_coords scale_box clip max min String_discrete
process_run = refl

process-Confident_example : All (Confident halves 1) detections
process-Confident_example =
    process-Confident halves 1 sorted sorted-Permᴰ (pos 10) (pos 10) (pos 10) (pos 10) 0
      ("cat" ∷ "dog" ∷ []) "yolov11" (tensor ∷ []) (attr ∷ [])

ltb_irrefl : (a : ℕ) → ltb a a ≡ false
ltb_irrefl a = ground arith

ltb_asym : (a b : ℕ) → ltb a b ≡ true → ltb b a ≡ false
ltb_asym a b h = ground arith

process-InFrame_example : All (λ d. InFrame halves 20 20 d.bbox) detections
process-InFrame_example =
    process-InFrame halves ltb_irrefl ltb_asym sorted (pos 10) (pos 10) (pos 10) (pos 10) 1 0
      ("cat" ∷ "dog" ∷ []) refl refl "yolov11" (tensor ∷ []) (attr ∷ [])
