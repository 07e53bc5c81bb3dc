-- ===== src/StreamManager/Frame.antt =====
-- What one decoded frame becomes: the inference tasks and the cached picture, in
-- `decode_thread_func` of src/stream/stream_manager.cpp.
pub mod Submission
use infer_server.Base.{
  ℕ, zero, suc, ◌+◌, ◌*◌, ◌/◌, ◌%◌, String, Bool, true, false, not, List, [], ◌∷◌, ◌++◌, Option,
  none, some, map, length, leb, ltb, ◌==◌, ◌&&◌, ◌||◌, if◌then◌else◌, String_discrete,
}
use infer_server.Base.Int.{ℤ, pos, negsuc, pos_part}
use infer_server.Base.Dict.{Dict, find}
use infer_server.Types.{
  StreamConfig, ModelConfig, FrameResult, ModelResult, DecodedFrame, InferTask, CachedFrame,
  ServerConfig,
}
use infer_server.FrameResultCollector.{FrameResultCollector, make}
use infer_server.RgaProcessor.{calc_proportional_height}
use infer_server.StreamManager.{StreamContext, Devices, Output}

-- A picture that is there and not empty.
unfoldable pub usable : Option (List ℕ) → Option (List ℕ)
usable none = none
usable (some []) = none
usable (some (b ∷ bytes)) = some (b ∷ bytes)

-- `v > 0 ? v : w`
abbrev pub positive_or : ℤ → ℤ → ℤ
positive_or (pos (suc v)) w = pos (suc v)
positive_or v w = w

module _ {F : Type 0} (dev : Devices) (orig_w orig_h : ℤ) where
  unfoldable pub base_result : StreamConfig F → DecodedFrame → FrameResult F
  base_result config frame = record {
    cam_id = config.cam_id;
    rtsp_url = config.rtsp_url;
    frame_id = frame.frame_id;
    timestamp_ms = frame.timestamp_ms;
    pts = frame.pts;
    original_width = orig_w;
    original_height = orig_h;
    results = [];
  }

  module _ (ctx : StreamContext F) (frame : DecodedFrame) where
    unfoldable pub labels_of : ModelConfig F → List String
    labels_of mc = elim (find String_discrete mc.model_path ctx.labels_cache) [
      | none ↦ []
      | some labels ↦ labels
    ]

    unfoldable pub task_of : Option ℕ → ModelConfig F → List ℕ → InferTask F
    unfolding labels_of
    task_of aggregator mc rgb = record {
      cam_id = ctx.config.cam_id;
      rtsp_url = ctx.config.rtsp_url;
      frame_id = frame.frame_id;
      pts = frame.pts;
      timestamp_ms = frame.timestamp_ms;
      original_width = orig_w;
      original_height = orig_h;
      model_path = mc.model_path;
      task_name = mc.task_name;
      model_type = mc.model_type;
      conf_threshold = mc.conf_threshold;
      nms_threshold = mc.nms_threshold;
      labels = labels_of mc;
      input_data = some rgb;
      input_width = mc.input_width;
      input_height = mc.input_height;
      aggregator = aggregator;
    }

    unfoldable pub rgb_of : ModelConfig F → Option (List ℕ)
    unfolding usable
    rgb_of mc =
        usable (dev.nv12_to_rgb_resize frame.nv12_data orig_w orig_h mc.input_width mc.input_height)

    -- The loop over the models: a model whose picture cannot be made is passed over.
    unfoldable pub tasks_of : Option ℕ → List (ModelConfig F) → List (InferTask F)
    unfolding task_of rgb_of
    tasks_of aggregator [] = []
    tasks_of aggregator (mc ∷ models) = elim (rgb_of mc) [
      | none ↦ tasks_of aggregator models
      | some rgb ↦ task_of aggregator mc rgb ∷ tasks_of aggregator models
    ]

    -- The part on inference. `number` names the collector, of which there is one if there are
    -- several models.
    unfoldable pub infer_frame : ℕ → List (Output F)
    unfolding tasks_of base_result make
    infer_frame number =
        let models = ctx.config.models in
        let num_models = length models in
        let several = ltb 1 num_models in
        let collector =
          if several
          then Output.collects number (make num_models (base_result ctx.config frame)) ∷ []
          else [] in
        let aggregator = if several then some number else none in
        if dev.has_engine && not (num_models == 0)
        then collector ++ map Output.submits (tasks_of aggregator models)
        else []

    -- The part on the image cache.
    unfoldable pub cache_frame : ServerConfig → List (Output F)
    unfolding usable calc_proportional_height
    cache_frame server =
        let cache_w = positive_or server.cache_resize_width orig_w in
        let cache_h =
          positive_or server.cache_resize_height (calc_proportional_height orig_w orig_h cache_w) in
        let cached : List ℕ → Output F = λ jpeg. Output.caches (record {
          cam_id = ctx.config.cam_id;
          frame_id = frame.frame_id;
          timestamp_ms = frame.timestamp_ms;
          width = cache_w;
          height = cache_h;
          jpeg_data = some jpeg;
        }) in
        if dev.has_cache && ctx.encoder_valid
        then elim (usable (dev.nv12_to_rgb_resize frame.nv12_data orig_w orig_h cache_w cache_h)) [
          | none ↦ []
          | some rgb ↦ elim (dev.encode rgb cache_w cache_h server.cache_jpeg_quality) [
            | [] ↦ []
            | b ∷ bytes ↦ cached (b ∷ bytes) ∷ []
          ]
        ]
        else []
