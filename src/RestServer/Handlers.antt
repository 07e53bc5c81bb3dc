-- ===== src/RestServer/Handlers.antt =====
-- The handlers of the routes on streams and on the server's status, and the handler of each route.
use Prim.Native.String.{◌++◌ as concat}
use infer_server.Base.{
  ℕ, suc, String, Bool, List, [], ◌∷◌, Option, none, some, length, if◌then◌else◌, ite,
  String_discrete,
}
use infer_server.Types.{StreamStatus}
use infer_server.BoundedQueue.{size}
use infer_server.ImageCache.{total_frames}
use infer_server.PostProcessor.Float.{FloatOps}
use infer_server.StreamManager.{StreamContext, Devices}
use infer_server.StreamManager.Manager.{
  StreamManager, World, add_stream, remove_stream, start_stream, stop_stream, start_all, stop_all,
  has_stream, get_status, get_all_status,
}
use infer_server.StreamManager.Manager.History.{Call, run}
use infer_server.InferenceEngine.{InferenceEngine, total_processed}
use infer_server.RestServer.{
  EngineStatus, nothing, cam, status, statuses, server, Response, Parsed, invalid, config, Request,
  ApiResponse, raised, answers, with_status, json_ok, json_error, of_stream, posts_stream,
  deletes_stream, gets_streams, posts_start_all, posts_stop_all, gets_stream, posts_start,
  posts_stop, gets_status, gets_image,
}
use infer_server.RestServer.Image.{get_image}

module _ {F : Type 0} (throws : ApiResponse F → Option String) where
  -- The answer of the handlers that act on one stream.
  unfoldable pub answer_stream :
      String → String → String → StreamManager F × Bool → StreamManager F × Response F
  unfolding json_ok json_error
  answer_stream cam_id done failed acted = (
    acted.0,
    if acted.1
        then answers (json_ok throws (of_stream cam_id done) (cam cam_id))
        else with_status 404 (json_error throws 404 (of_stream cam_id failed)),
  )

  -- The `catch` around the handler of POST /api/streams, which takes the exceptions of `dump` too.
  unfoldable pub caught : Response F → Response F
  unfolding json_error
  caught r = elim r.content [
    | raised what ↦ with_status 400 (json_error throws 400 (concat "Invalid JSON: " what))
    | _ ↦ r
  ]

module _ {F : Type 0} where
  -- The number of statuses "running".
  unfoldable pub running_count : List (StreamStatus F) → ℕ
  running_count [] = 0
  running_count (s ∷ rest) =
      ite (String_discrete s.status "running") (suc (running_count rest)) (running_count rest)

  unfoldable pub engine_status : InferenceEngine F → EngineStatus
  unfolding total_processed
  engine_status e = record {
    infer_queue_size = size e.task_queue;
    infer_queue_dropped = e.task_queue.dropped_count;
    infer_total_processed = total_processed e;
    zmq_published = e.zmq_pub.published_count;
  }

module _ (ops : FloatOps) (dev : Devices) (w : World)
    (throws : ApiResponse ops.F → Option String) where
  open ops use {F}

  -- POST /api/streams. Between the test for the stream and its addition, other threads may call the
  -- manager.
  unfoldable pub post_stream :
      List (World × Call F) → Parsed F → StreamManager F → StreamManager F × Response F
  unfolding json_ok json_error caught has_stream run add_stream
  post_stream between (invalid what) m =
      (m, with_status 400 (json_error throws 400 (concat "Invalid JSON: " what)))
  post_stream between (config c) m =
      let added = add_stream dev w c (run dev between m) in
      ite (String_discrete c.cam_id "")
        (m, caught throws (with_status 400 (json_error throws 400 "cam_id is required")))
        (ite (String_discrete c.rtsp_url "")
          (m, caught throws (with_status 400 (json_error throws 400 "rtsp_url is required")))
          (if has_stream c.cam_id m
            then (
              m,
              caught throws
                  (with_status 409 (json_error throws 409 (of_stream c.cam_id " already exists"))),
            )
            else (
              added.0,
              caught throws (
                  if added.1
                  then answers (json_ok throws (of_stream c.cam_id " added") (cam c.cam_id))
                  else with_status 500
                      (json_error throws 500 (concat "Failed to add stream " c.cam_id))),
            )))

  -- GET /api/streams/:cam_id
  unfoldable pub get_stream : (StreamContext F → F) → String → StreamManager F → Response F
  unfolding get_status json_ok json_error
  get_stream uptime cam_id m = elim (get_status ops uptime cam_id m) [
    | none ↦ with_status 404 (json_error throws 404 (of_stream cam_id " not found"))
    | some s ↦ answers (json_ok throws "success" (status s))
  ]

  -- GET /api/status, with the server's uptime, the engine if there is one, and the cache's memory in
  -- megabytes, rounded to hundredths. `streams_total` and `streams_running` do not overflow.
  unfoldable pub get_server_status :
      (StreamContext F → F)
      → F
      → Option (InferenceEngine F)
      → (ℕ → F)
      → StreamManager F
      → Response F
  unfolding get_all_status running_count engine_status json_ok total_frames
  get_server_status uptime server_uptime engine memory_mb m =
      let all_status = get_all_status ops uptime m in
      answers (
        json_ok throws "success" (
          server (record {
            version = "0.1.0";
            uptime_seconds = server_uptime;
            streams_total = length all_status;
            streams_running = running_count all_status;
            engine = elim engine [ none ↦ none | some e ↦ some (engine_status e) ];
            cache_memory_mb = if dev.has_cache then some (memory_mb m.cache.total_memory) else none;
            cache_total_frames = if dev.has_cache then some (total_frames m.cache) else none;
          })))

  -- The handler of each route.
  unfoldable pub handle :
      (StreamContext F → F)
      → F
      → Option (InferenceEngine F)
      → (ℕ → F)
      → List (World × Call F)
      → Request F
      → StreamManager F
      → StreamManager F × Response F
  unfolding post_stream answer_stream remove_stream start_stream stop_stream start_all stop_all
      get_all_status get_stream get_server_status get_image json_ok
  handle uptime up engine mb between (posts_stream body) m = post_stream between body m
  handle uptime up engine mb between (deletes_stream cam_id) m =
      answer_stream throws cam_id " removed" " not found" (remove_stream dev w cam_id m)
  handle uptime up engine mb between gets_streams m =
      (m, answers (json_ok throws "success" (statuses (get_all_status ops uptime m))))
  handle uptime up engine mb between posts_start_all m =
      (start_all dev w m, answers (json_ok throws "All streams started" nothing))
  handle uptime up engine mb between posts_stop_all m =
      (stop_all dev w m, answers (json_ok throws "All streams stopped" nothing))
  handle uptime up engine mb between (gets_stream cam_id) m = (m, get_stream uptime cam_id m)
  handle uptime up engine mb between (posts_start cam_id) m =
      answer_stream throws cam_id " started" " not found or already running"
        (start_stream dev w cam_id m)
  handle uptime up engine mb between (posts_stop cam_id) m =
      answer_stream throws cam_id " stopped" " not found" (stop_stream dev w cam_id m)
  handle uptime up engine mb between gets_status m = (m, get_server_status uptime up engine mb m)
  handle uptime up engine mb between (gets_image q) m =
      (m, get_image throws dev.has_cache q m.cache)
