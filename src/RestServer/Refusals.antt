-- ===== src/RestServer/Refusals.antt =====
-- What a request that is refused leaves behind, and which requests are refused.
use infer_server.Base.{
  ◌≡◌, refl, sym, subst, ◌⊎◌, inl, inr, Bool, true, false, String, List, Option, none, ℕ,
  if◌then◌else◌, ite, if_true, Option-cases, Bool-cases, String_discrete,
}
use infer_server.Types.{StreamConfig}
use infer_server.PostProcessor.Float.{FloatOps}
use infer_server.StreamManager.{StreamContext, Devices}
use infer_server.StreamManager.Manager.{
  StreamManager, World, add_stream, remove_stream, start_stream, stop_stream, find_stream,
  has_stream, get_status,
}
use infer_server.StreamManager.Manager.Branches.{
  add_stream-nameless, add_stream-known, add_stream-new, remove_stream-missing, remove_stream-there,
  start_stream-missing, start_stream-runs, start_stream-rests, stop_stream-missing,
  stop_stream-there,
}
use infer_server.StreamManager.Manager.Lookup.{has_stream-none, has_stream-some}
use infer_server.StreamManager.Manager.History.{Call, run}
use infer_server.InferenceEngine.{InferenceEngine}
use infer_server.RestServer.{
  Response, Data, Request, Parsed, invalid, config, posts_stream, deletes_stream, gets_streams,
  posts_start_all, posts_stop_all, gets_stream, posts_start, posts_stop, gets_status, gets_image,
  ApiResponse, cam, of_stream, answers, with_status, json_ok, json_error,
}
use infer_server.RestServer.Responses.{
  Proper, Proper-if, json_ok-printed, json_ok-Proper, json_error-Proper, caught-Proper,
  get_image-Proper,
}
use infer_server.RestServer.Handlers.{
  get_server_status, answer_stream, caught, post_stream, get_stream, handle,
}

-- What the other threads do between two calls of a handler, and nothing else, may have changed.
abbrev pub Kept : {F : Type 0} → StreamManager F → StreamManager F → StreamManager F → Type 0
Kept m others m' = (m' ≡ m) ⊎ (m' ≡ others)

module _ (dev : Devices) (w : World) {F : Type 0} (cam : String) (m : StreamManager F) where
  -- An operation on a stream that fails leaves the manager as it is.
  abbrev pub Refusing : StreamManager F × Bool → Type 0
  Refusing acted = (acted.1 ≡ has_stream cam m) × ((acted.1 ≡ true) ⊎ (acted.0 ≡ m))

  pub remove_stream-Refusing : Refusing (remove_stream dev w cam m)
  remove_stream-Refusing = elim (Option-cases (find_stream cam m)) [
    | inl e ↦
        rw (remove_stream-missing dev w cam m e, has_stream-none dev w cam m e) (refl, inr refl)
    | inr (ctx, e) ↦
        rw (remove_stream-there dev w cam m e, has_stream-some dev w cam m ctx e) (refl, inl refl)
  ]

  pub stop_stream-Refusing : Refusing (stop_stream dev w cam m)
  stop_stream-Refusing = elim (Option-cases (find_stream cam m)) [
    | inl e ↦ rw (stop_stream-missing dev w cam m e, has_stream-none dev w cam m e) (refl, inr refl)
    | inr (ctx, e) ↦
        rw (stop_stream-there dev w cam m ctx e, has_stream-some dev w cam m ctx e) (refl, inl refl)
  ]

  pub start_stream-Refusing : Refusing (start_stream dev w cam m)
  start_stream-Refusing = elim (Option-cases (find_stream cam m)) [
    | inl e ↦
        rw (start_stream-missing dev w cam m e, has_stream-none dev w cam m e) (refl, inr refl)
    | inr (ctx, e) ↦ elim (Bool-cases ctx.running) [
      | inl r ↦
          rw (start_stream-runs dev w cam m e r, has_stream-some dev w cam m ctx e) (refl, inl refl)
      | inr r ↦
          rw (start_stream-rests dev w cam m ctx e r, has_stream-some dev w cam m ctx e)
            (refl, inl refl)
    ]
  ]

  add_stream-refusing :
      (c : StreamConfig F) → ((add_stream dev w c m).1 ≡ true) ⊎ ((add_stream dev w c m).0 ≡ m)
  add_stream-refusing c = elim (String_discrete c.cam_id "") [
    | yes e ↦ rw (add_stream-nameless dev w "" m c e) (inr refl)
    | no n ↦ elim (Option-cases (find_stream c.cam_id m)) [
      | inr (ctx, e) ↦ rw (add_stream-known dev w "" m c e) (inr refl)
      | inl e ↦ rw (add_stream-new dev w "" m c n e) (inl refl)
    ]
  ]

-- A state and a response: the response is proper, and if it is an error then the state is kept.
abbrev pub IsAnswered :
    {F : Type 0} → StreamManager F → StreamManager F → StreamManager F × Response F → Type 0
IsAnswered m others x = Proper (Kept m others x.0) x.1

module _ {F : Type 0} (m others : StreamManager F) where
  IsAnswered-if :
      (b : Bool) (x y : StreamManager F × Response F)
      → IsAnswered m others x
      → IsAnswered m others y
      → IsAnswered m others (if b then x else y)
  IsAnswered-if true x y hx hy = hx
  IsAnswered-if false x y hx hy = hy

  IsAnswered-ite :
      {P : Type 0} (d : Dec P) (x y : StreamManager F × Response F)
      → IsAnswered m others x
      → IsAnswered m others y
      → IsAnswered m others (ite d x y)
  IsAnswered-ite (yes p) x y hx hy = hx
  IsAnswered-ite (no n) x y hx hy = hy

  module _ (throws : ApiResponse F → Option String) where
    -- The response of an operation that says whether it has failed, and changes nothing if it has.
    IsAnswered-acted :
        (acted : StreamManager F × Bool) (message : String) (d : Data F) (code : ℕ)
        (failure : String)
        → (acted.1 ≡ true) ⊎ Kept m others acted.0
        → IsAnswered m others (
          acted.0,
          if acted.1
              then answers (json_ok throws message d)
              else with_status code (json_error throws code failure),
        )
    IsAnswered-acted acted message d code failure (inl e) =
        subst (Proper (Kept m others acted.0)) (sym (if_true _ _ e))
          (json_ok-Proper throws _ message d)
    IsAnswered-acted acted message d code failure (inr k) =
        Proper-if _ acted.1 _ _ (json_ok-Proper throws _ message d)
          (json_error-Proper throws _ code failure k)

    -- The same under the `catch`, if the message of success can be printed.
    IsAnswered-caught :
        (acted : StreamManager F × Bool) (message : String) (d : Data F) (code : ℕ)
        (failure : String)
        → throws (record { code = 0; message = message; data_ = d }) ≡ none
        → (acted.1 ≡ true) ⊎ Kept m others acted.0
        → IsAnswered m others (
          acted.0,
          caught throws (
              if acted.1
              then answers (json_ok throws message d)
              else with_status code (json_error throws code failure)),
        )
    unfolding caught
    IsAnswered-caught acted message d code failure prints (inl e) =
        rw (e, json_ok-printed throws message d prints) (inl (refl, refl))
    IsAnswered-caught acted message d code failure prints (inr k) =
        caught-Proper throws _ _ k (IsAnswered-acted acted message d code failure (inr k))

module _ (ops : FloatOps) (dev : Devices) (w : World)
    (throws : ApiResponse ops.F → Option String) where
  open ops use {F}

  -- A message on a configuration that was parsed can be printed: its name is UTF-8, as all text that
  -- is parsed.
  abbrev pub Prints : Parsed F → Type 0
  Prints (invalid what) = Unit
  Prints (config c) =
      throws (record { code = 0; message = of_stream c.cam_id " added"; data_ = cam c.cam_id })
      ≡ none

  abbrev pub RequestPrints : Request F → Type 0
  RequestPrints (posts_stream body) = Prints body
  RequestPrints request = Unit

  post_stream-IsAnswered :
      (between : List (World × Call F)) (body : Parsed F) (m : StreamManager F)
      → Prints body
      → IsAnswered m (run dev between m) (post_stream ops dev w throws between body m)
  unfolding post_stream
  post_stream-IsAnswered between (invalid what) m prints =
      json_error-Proper throws _ 400 _ (inl refl)
  post_stream-IsAnswered between (config c) m prints =
      let others = run dev between m in
      let refused = λ (code : ℕ) (message : String).
        caught-Proper throws (Kept m others m) (with_status code (json_error throws code message))
          (inl refl) (json_error-Proper throws _ code message (inl refl)) in
      IsAnswered-ite m others (String_discrete c.cam_id "") _ _ (refused 400 _) (
        IsAnswered-ite m others (String_discrete c.rtsp_url "") _ _ (refused 400 _) (
          IsAnswered-if m others (has_stream c.cam_id m) _ _ (refused 409 _) (
            IsAnswered-caught m others throws (add_stream dev w c others) _ _ 500 _ prints
              (elim (add_stream-refusing dev w "" others c) [
                | inl e ↦ inl e
                | inr k ↦ inr (inr k)
              ]))))

  -- An operation on one stream, with the answer of its handler.
  answer_stream-IsAnswered :
      (cam_id done failed : String) (m others : StreamManager F) (acted : StreamManager F × Bool)
      → Refusing dev w cam_id m acted
      → IsAnswered m others (answer_stream throws cam_id done failed acted)
  unfolding answer_stream
  answer_stream-IsAnswered cam_id done failed m others acted h =
      IsAnswered-acted m others throws acted _ _ 404 _
        (elim h.1 [ inl e ↦ inl e | inr k ↦ inr (inl k) ])

  get_stream-IsAnswered :
      (uptime : StreamContext F → F) (cam_id : String) (m others : StreamManager F)
      → IsAnswered m others (m, get_stream ops dev w throws uptime cam_id m)
  unfolding get_stream
  get_stream-IsAnswered uptime cam_id m others =
      elim (Option-cases (get_status ops uptime cam_id m)) [
        | inl e ↦ rw (get_stream, e) (json_error-Proper throws _ 404 _ (inl refl))
        | inr (s, e) ↦ rw (get_stream, e) (json_ok-Proper throws _ _ _)
      ]

  -- The response to any request is a picture, or JSON of code 0 with the status that the library
  -- gives, or JSON of an error, whose code is the HTTP status, or the exception of a text that is not
  -- UTF-8. A request that is answered with an error status changes nothing: the streams are as
  -- before, or as other threads have left them while it was handled. For a configuration that is
  -- posted this supposes that its name can be printed, which was parsed.
  pub handle-IsAnswered :
      (uptime : StreamContext F → F) (up : F) (engine : Option (InferenceEngine F)) (mb : ℕ → F)
      (between : List (World × Call F)) (request : Request F) (m : StreamManager F)
      → RequestPrints request
      → IsAnswered m
          (run dev between m)
          (handle ops dev w throws uptime up engine mb between request m)
  unfolding handle get_server_status
  handle-IsAnswered uptime up engine mb between (posts_stream body) m prints =
      post_stream-IsAnswered between body m prints
  handle-IsAnswered uptime up engine mb between (deletes_stream cam_id) m prints =
      answer_stream-IsAnswered cam_id _ _ m _ _ (remove_stream-Refusing dev w cam_id m)
  handle-IsAnswered uptime up engine mb between gets_streams m prints = json_ok-Proper throws _ _ _
  handle-IsAnswered uptime up engine mb between posts_start_all m prints =
      json_ok-Proper throws _ _ _
  handle-IsAnswered uptime up engine mb between posts_stop_all m prints =
      json_ok-Proper throws _ _ _
  handle-IsAnswered uptime up engine mb between (gets_stream cam_id) m prints =
      get_stream-IsAnswered uptime cam_id m _
  handle-IsAnswered uptime up engine mb between (posts_start cam_id) m prints =
      answer_stream-IsAnswered cam_id _ _ m _ _ (start_stream-Refusing dev w cam_id m)
  handle-IsAnswered uptime up engine mb between (posts_stop cam_id) m prints =
      answer_stream-IsAnswered cam_id _ _ m _ _ (stop_stream-Refusing dev w cam_id m)
  handle-IsAnswered uptime up engine mb between gets_status m prints = json_ok-Proper throws _ _ _
  handle-IsAnswered uptime up engine mb between (gets_image q) m prints =
      get_image-Proper throws _ dev.has_cache q m.cache (inl refl)
