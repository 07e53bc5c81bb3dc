-- ===== src/RestServer.antt =====
-- include/infer_server/api/rest_server.h and src/api/rest_server.cpp: the handlers of the REST API on
-- the stream manager, the image cache and the engine. The HTTP and the JSON library are not code of
-- this repository: a handler takes what they have made of the request, and returns the response as
-- data, or the exception that leaves it. All the optional parts are taken as built. `start` and
-- `stop`, with the server's thread, are not modelled.
pub mod Image
pub mod Handlers
pub mod Responses
pub mod Refusals
pub mod Streams
mod Tests
use Prim.Native.String.{◌++◌ as concat}
use infer_server.Base.{
  ℕ, zero, suc, ◌+◌, ◌≡◌, String, Bool, true, false, not, List, [], ◌∷◌, Option, none, some, length,
  ◌||◌, if◌then◌else◌, ite, String_discrete,
}
use infer_server.Base.Int.{ℤ, pos}
use infer_server.Types.{StreamConfig, StreamStatus, CachedFrame}
use infer_server.BoundedQueue.{size}
use infer_server.ImageCache.{ImageCache, total_frames, get_nearest_frame, get_latest_frame}
use infer_server.PostProcessor.Float.{FloatOps}
use infer_server.StreamManager.{StreamContext, Devices}
use infer_server.StreamManager.Manager.{
  StreamManager, World, add_stream, remove_stream, start_stream, stop_stream, start_all, stop_all,
  has_stream, get_status, get_all_status,
}
use infer_server.StreamManager.Manager.History.{Call, run}
use infer_server.InferenceEngine.{InferenceEngine, total_processed}

-- What `/api/status` says of the engine: the size of its queue, the tasks that were dropped and
-- processed, and the messages that were published.
pub record EngineStatus : Type 0 where
  pub infer_queue_size : ℕ
  pub infer_queue_dropped : ℕ
  pub infer_total_processed : ℕ
  pub zmq_published : ℕ

pub record ServerStatus (F : Type 0) : Type 0 where
  pub version : String
  pub uptime_seconds : F
  pub streams_total : ℕ
  pub streams_running : ℕ
  pub engine : Option EngineStatus
  pub cache_memory_mb : Option F
  pub cache_total_frames : Option ℕ

-- The `data` of an `ApiResponse`.
pub data Data (F : Type 0) : Type 0 where
  nothing : Data F
  cam : String → Data F
  status : StreamStatus F → Data F
  statuses : List (StreamStatus F) → Data F
  server : ServerStatus F → Data F

pub record ApiResponse (F : Type 0) : Type 0 where
  pub code : ℕ
  pub message : String
  pub data_ : Data F

-- A JSON text, or a picture with the frame's number, time and size in the headers; or an exception
-- with its text, which leaves the handler and which the HTTP library answers.
pub data Content (F : Type 0) : Type 0 where
  json : ApiResponse F → Content F
  raised : (what : String) → Content F
  jpeg : (bytes : List ℕ) (frame_id : ℕ) (timestamp_ms width height : ℤ) → Content F

-- `status` is `none` where the handler leaves it alone: the HTTP library answers 200.
pub record Response (F : Type 0) : Type 0 where
  pub status : Option ℕ
  pub content : Content F

-- What the JSON library makes of a body: a configuration, or an exception with its text.
pub data Parsed (F : Type 0) : Type 0 where
  invalid : (what : String) → Parsed F
  config : StreamConfig F → Parsed F

-- The parameters of a request for a picture; `ts` with what `std::stoll` makes of it.
pub record ImageQuery : Type 0 where
  pub stream_id : Option String
  pub ts : Option (Option ℤ)
  pub latest : Option String

pub data Request (F : Type 0) : Type 0 where
  posts_stream : Parsed F → Request F
  deletes_stream : String → Request F
  gets_streams : Request F
  posts_start_all : Request F
  posts_stop_all : Request F
  gets_stream : String → Request F
  posts_start : String → Request F
  posts_stop : String → Request F
  gets_status : Request F
  gets_image : ImageQuery → Request F

-- "Stream " + cam_id + what
abbrev pub of_stream : String → String → String
of_stream cam_id what = concat "Stream " (concat cam_id what)

-- A response whose status is left alone, and one with a status.
abbrev pub answers : {F : Type 0} → Content F → Response F
answers content = record { status = none; content = content }

abbrev pub with_status : {F : Type 0} → ℕ → Content F → Response F
with_status code content = record { status = some code; content = content }

-- `throws` is the exception of `dump`, if it cannot print the response: a text in it is not UTF-8.
module _ {F : Type 0} (throws : ApiResponse F → Option String) where
  unfoldable pub json_ok : String → Data F → Content F
  json_ok message data_ =
      let resp : ApiResponse F = record { code = 0; message = message; data_ = data_ } in
      elim (throws resp) [ none ↦ json resp | some what ↦ raised what ]

  unfoldable pub json_error : ℕ → String → Content F
  json_error code message =
      let resp : ApiResponse F = record { code = code; message = message; data_ = nothing } in
      elim (throws resp) [ none ↦ json resp | some what ↦ raised what ]
