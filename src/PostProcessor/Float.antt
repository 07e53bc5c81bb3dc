-- ===== src/PostProcessor/Float.antt =====
-- The floating-point operations that the post-processor uses, and the parts of it that are
-- arithmetic alone.
use infer_server.Base.{ℕ, suc, Bool, List, [], ◌∷◌, map, if◌then◌else◌}
use infer_server.Base.Int.{ℤ, pos}
use infer_server.Types.{BBox, Detection}

-- `float`: the constants that the code writes, the operations and the tests.
pub record FloatOps : Type 1 where
  pub F : Type 0
  pub zero_f : F
  pub half : F
  pub one : F
  pub two : F
  pub minus_one : F
  pub of_int : ℤ → F
  pub neg : F → F
  pub add : F → F → F
  pub sub : F → F → F
  pub mul : F → F → F
  pub div : F → F → F
  pub exp : F → F
  pub pow : F → F → F
  -- `a < b`
  pub lt : F → F → Bool

module _ (ops : FloatOps) where
  open ops use {F, zero_f, half, one, two, of_int, neg, add, sub, mul, div, exp, lt}

  -- `std::max` and `std::min`, by the standard's definition.
  unfoldable pub max : F → F → F
  max a b = if lt a b then b else a

  unfoldable pub min : F → F → F
  min a b = if lt b a then b else a

  pub sigmoid : F → F
  sigmoid x = div one (add one (exp (neg x)))

  unfoldable pub iou : BBox F → BBox F → F
  iou a b =
      let inter_x1 = max a.x1 b.x1 in
      let inter_y1 = max a.y1 b.y1 in
      let inter_x2 = min a.x2 b.x2 in
      let inter_y2 = min a.y2 b.y2 in
      let inter_area =
        mul (max zero_f (sub inter_x2 inter_x1)) (max zero_f (sub inter_y2 inter_y1)) in
      let area_a = mul (sub a.x2 a.x1) (sub a.y2 a.y1) in
      let area_b = mul (sub b.x2 b.x1) (sub b.y2 b.y1) in
      let union_area = sub (add area_a area_b) inter_area in
      if lt zero_f union_area then div inter_area union_area else zero_f

  -- `dequantize_int8` over the data.
  pub dequantize_int8 : List ℤ → ℤ → F → List F
  dequantize_int8 values zp scale = map (λ v. mul (sub (of_int v) (of_int zp)) scale) values

  -- The three loops of `dfl_decode`. `data` has at least one value.
  unfoldable pub max_of : F → List F → F
  max_of best [] = best
  max_of best (x ∷ xs) = max_of (max best x) xs

  unfoldable pub sum_of : F → List F → F
  sum_of acc [] = acc
  sum_of acc (x ∷ xs) = sum_of (add acc x) xs

  unfoldable pub weigh : F → F → ℕ → List F → F
  weigh acc sum_exp i [] = acc
  weigh acc sum_exp i (e ∷ es) =
      weigh (add acc (mul (of_int (pos i)) (div e sum_exp))) sum_exp (suc i) es

  unfoldable pub dfl_decode : F → List F → F
  unfolding max_of sum_of weigh
  dfl_decode first rest =
      let max_val = max_of first rest in
      let exp_vals = map (λ x. exp (sub x max_val)) (first ∷ rest) in
      weigh zero_f (sum_of zero_f exp_vals) 0 exp_vals

  -- `std::max(0.0f, std::min(v, bound))`
  unfoldable pub clip : F → F → F
  unfolding max min
  clip bound v = max zero_f (min v bound)

  -- A coordinate from the letterboxed model input back to the frame.
  pub unpad : F → F → F → F
  unpad pad scale v = div (sub v pad) scale

  unfoldable pub scale_box : F → F → F → F → F → BBox F → BBox F
  unfolding clip unpad
  scale_box scale pad_x pad_y orig_w orig_h b = record {
    x1 = clip orig_w (unpad pad_x scale b.x1);
    y1 = clip orig_h (unpad pad_y scale b.y1);
    x2 = clip orig_w (unpad pad_x scale b.x2);
    y2 = clip orig_h (unpad pad_y scale b.y2);
  }

  unfoldable pub scale_coords : ℤ → ℤ → ℤ → ℤ → List (Detection F) → List (Detection F)
  unfolding scale_box
  scale_coords model_w model_h orig_w orig_h dets =
      let ow = of_int orig_w in
      let oh = of_int orig_h in
      let scale = min (div (of_int model_w) ow) (div (of_int model_h) oh) in
      let pad_x = div (sub (of_int model_w) (mul ow scale)) two in
      let pad_y = div (sub (of_int model_h) (mul oh scale)) two in
      map (λ (d : Detection F). record d { bbox = scale_box scale pad_x pad_y ow oh d.bbox }) dets
