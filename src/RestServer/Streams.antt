-- ===== src/RestServer/Streams.antt =====
-- The requests on one stream: when they are refused, and what a stream that was posted answers.
use infer_server.Base.{
  ◌≡◌, ◌≢◌, refl, ap, ◌∙◌, arith, Bool, inl, inr, String, [], Option, none, some, ℕ, if◌then◌else◌,
  if_false, if_neg, Option-cases, String_discrete,
}
use infer_server.Types.{StreamConfig, StreamStatus, stream_state_to_string}
use infer_server.PostProcessor.Float.{FloatOps}
use infer_server.StreamManager.{StreamContext, Devices}
use infer_server.StreamManager.Manager.{
  StreamManager, World, add_stream, find_stream, has_stream, get_status, build_status, launch,
  new_context,
}
use infer_server.StreamManager.Manager.Lookup.{
  has_stream-none, has_stream-some, add_stream-launched,
}
use infer_server.StreamManager.Manager.History.{run}
use infer_server.InferenceEngine.{InferenceEngine}
use infer_server.RestServer.{
  Response, Data, cam, status, Request, config, posts_stream, deletes_stream, gets_stream,
  posts_start, posts_stop, ApiResponse, json, answers, with_status, json_ok, json_error, of_stream,
}
use infer_server.RestServer.Handlers.{answer_stream, caught, post_stream, get_stream, handle}
use infer_server.RestServer.Responses.{json_ok-printed}
use infer_server.RestServer.Refusals.{
  Prints, Refusing, remove_stream-Refusing, start_stream-Refusing, stop_stream-Refusing,
}

module _ (ops : FloatOps) (dev : Devices) (w : World)
    (throws : ApiResponse ops.F → Option String) where
  open ops use {F}

  -- The HTTP status that the handler of a request on a stream sets.
  abbrev pub found_status : String → StreamManager F → Option ℕ
  found_status cam_id m = if has_stream cam_id m then none else some 404

  answer_stream-status :
      (cam_id done failed : String) (m : StreamManager F) (acted : StreamManager F × Bool)
      → Refusing dev w cam_id m acted
      → (answer_stream throws cam_id done failed acted).1.status ≡ found_status cam_id m
  unfolding answer_stream json_ok json_error
  answer_stream-status cam_id done failed m acted h = rw h.0 (ground arith)

  get_stream-status :
      (uptime : StreamContext F → F) (cam_id : String) (m : StreamManager F)
      → (get_stream ops dev w throws uptime cam_id m).status ≡ found_status cam_id m
  unfolding get_stream get_status json_ok json_error
  get_stream-status uptime cam_id m = elim (Option-cases (find_stream cam_id m)) [
    | inl e ↦ rw (get_stream, get_status, e, has_stream-none dev w cam_id m e) refl
    | inr (ctx, e) ↦ rw (get_stream, get_status, e, has_stream-some dev w cam_id m ctx e) refl
  ]

  -- The response of success, printed.
  abbrev pub accepted : String → Data F → Response F
  accepted message d = answers (json (record { code = 0; message = message; data_ = d }))

  get_stream-there :
      (uptime : StreamContext F → F) (cam_id : String) (m : StreamManager F) (ctx : StreamContext F)
      → find_stream cam_id m ≡ some ctx
      → get_stream ops dev w throws uptime cam_id m
        ≡ answers (json_ok throws "success" (status (build_status ops (uptime ctx) ctx)))
  unfolding get_stream get_status
  get_stream-there uptime cam_id m ctx e = rw (get_stream, get_status, e) refl

  post_stream-new :
      (c : StreamConfig F) (m : StreamManager F)
      → c.cam_id ≢ ""
      → c.rtsp_url ≢ ""
      → find_stream c.cam_id m ≡ none
      → Prints ops dev w throws (config c)
      → post_stream ops dev w throws [] (config c) m
        ≡ ((add_stream dev w c m).0, accepted (of_stream c.cam_id " added") (cam c.cam_id))
  unfolding post_stream run caught json_ok
  post_stream-new c m named addressed new prints =
      let (added, there) = add_stream-launched dev w c m named new in
      if_neg (String_discrete c.cam_id "") named
        (m, caught throws (with_status 400 (json_error throws 400 "cam_id is required"))) _
      ∙ if_neg (String_discrete c.rtsp_url "") addressed
          (m, caught throws (with_status 400 (json_error throws 400 "rtsp_url is required"))) _
      ∙ if_false
          (
            m,
            caught throws
                (with_status 409 (json_error throws 409 (of_stream c.cam_id " already exists"))),
          )
          _ (has_stream-none dev w c.cam_id m new)
      ∙ rw (added, json_ok-printed throws (of_stream c.cam_id " added") (cam c.cam_id) prints) refl

  module _ (uptime : StreamContext F → F) (up : F) (engine : Option (InferenceEngine F))
      (mb : ℕ → F) where
    abbrev pub answer : Request F → StreamManager F → StreamManager F × Response F
    answer request m = handle ops dev w throws uptime up engine mb [] request m

    -- For a request to remove, read, start or stop a stream the handler sets the status 404 exactly
    -- if no stream has that name, and otherwise none; so starting a stream that already runs is not
    -- an error.
    pub answer-status :
        (cam_id : String) (m : StreamManager F)
        → ((answer (deletes_stream cam_id) m).1.status ≡ found_status cam_id m)
          × ((answer (gets_stream cam_id) m).1.status ≡ found_status cam_id m)
          × ((answer (posts_start cam_id) m).1.status ≡ found_status cam_id m)
          × ((answer (posts_stop cam_id) m).1.status ≡ found_status cam_id m)
    unfolding handle
    answer-status cam_id m = (
      answer_stream-status cam_id _ _ m _ (remove_stream-Refusing dev w cam_id m),
      get_stream-status uptime cam_id m,
      answer_stream-status cam_id _ _ m _ (start_stream-Refusing dev w cam_id m),
      answer_stream-status cam_id _ _ m _ (stop_stream-Refusing dev w cam_id m),
    )

    -- The status of a stream that has just been added.
    abbrev pub fresh_status : StreamConfig F → StreamStatus F
    fresh_status c =
        build_status ops (uptime (launch w (new_context w c))) (launch w (new_context w c))

    -- A configuration with a name that is new and an address is accepted, and a request for that
    -- stream gives back its configuration: the name, the address, the frame skip and the models that
    -- were posted, with the state "starting" and counts of zero. The two responses are taken to be
    -- ones that can be printed.
    pub answer-posted :
        (c : StreamConfig F) (m : StreamManager F)
        → c.cam_id ≢ ""
        → c.rtsp_url ≢ ""
        → find_stream c.cam_id m ≡ none
        → Prints ops dev w throws (config c)
        → throws (record { code = 0; message = "success"; data_ = status (fresh_status c) }) ≡ none
        → ((answer (posts_stream (config c)) m).1
            ≡ accepted (of_stream c.cam_id " added") (cam c.cam_id))
          × ((answer (gets_stream c.cam_id) (answer (posts_stream (config c)) m).0).1
              ≡ accepted "success" (status (fresh_status c)))
          × ((fresh_status c).cam_id ≡ c.cam_id)
          × ((fresh_status c).rtsp_url ≡ c.rtsp_url)
          × ((fresh_status c).frame_skip ≡ c.frame_skip)
          × ((fresh_status c).models ≡ c.models)
          × ((fresh_status c).status ≡ "starting")
          × ((fresh_status c).decoded_frames ≡ 0)
    unfolding handle build_status launch new_context stream_state_to_string json_ok
    answer-posted c m named addressed new prints shows =
        let (added, there) = add_stream-launched dev w c m named new in
        let posted = post_stream-new c m named addressed new prints in
        (
          ap (λ (x : StreamManager F × Response F). x.1) posted,
          get_stream-there uptime c.cam_id (answer (posts_stream (config c)) m).0
                (launch w (new_context w c))
                (ap (λ (x : StreamManager F × Response F). find_stream c.cam_id x.0) posted ∙ there)
              ∙ rw (json_ok-printed throws "success" (status (fresh_status c)) shows) refl,
          refl,
          refl,
          refl,
          refl,
          refl,
          refl,
        )
