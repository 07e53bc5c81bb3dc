-- ===== src/RestServer/Image.antt =====
-- The handler of GET /api/cache/image.
use Prim.Native.String.{◌++◌ as concat}
use infer_server.Base.{
  String, Bool, true, false, not, [], ◌∷◌, Option, none, some, if◌then◌else◌, ite, String_discrete,
}
use infer_server.Types.{CachedFrame}
use infer_server.ImageCache.{ImageCache, get_nearest_frame, get_latest_frame}
use infer_server.RestServer.{
  ApiResponse, jpeg, Response, ImageQuery, answers, with_status, json_error,
}

unfoldable pub requested_stream : ImageQuery → String
requested_stream q = elim q.stream_id [ none ↦ "" | some id ↦ id ]

unfoldable pub wants_latest : ImageQuery → Bool
wants_latest q = elim q.latest [
  | none ↦ false
  | some value ↦ ite (String_discrete value "true") true false
]

module _ {F : Type 0} (throws : ApiResponse F → Option String) where
  -- A picture that is there and not empty.
  unfoldable pub answer_frame : String → Option CachedFrame → Response F
  unfolding json_error
  answer_frame stream_id found =
      let missing =
        with_status 404
          (json_error throws 404 (concat "No cached image found for stream " stream_id)) in
      elim found [
        | none ↦ missing
        | some frame ↦ elim frame.jpeg_data [
          | none ↦ missing
          | some [] ↦ missing
          | some (b ∷ bytes) ↦
              answers (jpeg (b ∷ bytes) frame.frame_id frame.timestamp_ms frame.width frame.height)
        ]
      ]

  -- GET /api/cache/image, with whether `cache_` is there.
  unfoldable pub get_image : Bool → ImageQuery → ImageCache → Response F
  unfolding json_error answer_frame requested_stream wants_latest get_latest_frame get_nearest_frame
  get_image has_cache q cache =
      let stream_id = requested_stream q in
      let latest = answer_frame stream_id (get_latest_frame stream_id cache) in
      if not has_cache
      then with_status 503 (json_error throws 503 "Image cache not available")
      else ite (String_discrete stream_id "")
          (with_status 400 (json_error throws 400 "stream_id parameter is required"))
          (if wants_latest q then latest else elim q.ts [
            | none ↦ latest
            | some none ↦ with_status 400 (json_error throws 400 "Invalid ts parameter")
            | some (some ts) ↦ answer_frame stream_id (get_nearest_frame stream_id ts cache)
          ])
