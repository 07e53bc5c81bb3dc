-- ===== src/RestServer/Responses.antt =====
-- What the handlers answer, and what a request that is refused leaves behind.
use infer_server.Base.{
  ◌≡◌, refl, ◌⊎◌, inl, inr, Bool, true, false, not, String, [], ◌∷◌, Option, none, some, ℕ,
  if◌then◌else◌, ite, Option-cases, String_discrete,
}
use infer_server.Types.{CachedFrame}
use infer_server.ImageCache.{ImageCache, get_latest_frame, get_nearest_frame}
use infer_server.RestServer.{
  ApiResponse, Response, Content, json, jpeg, raised, Data, nothing, ImageQuery, answers,
  with_status, json_ok, json_error,
}
use infer_server.RestServer.Handlers.{caught}
use infer_server.RestServer.Image.{answer_frame, get_image, requested_stream, wants_latest}

module _ {F : Type 0} where
  -- What a response says by its status and its content: a picture and a JSON text of code 0 have no
  -- HTTP status of their own. Another JSON text has its code as the status, and `Kept` holds. Where
  -- an exception leaves the handler, it had set no status, or `Kept` holds.
  abbrev pub Says : Type 0 → Option ℕ → Content F → Type 0
  Says Kept status (json resp) =
      ((status ≡ none) × (resp.code ≡ 0)) ⊎ ((status ≡ some resp.code) × Kept)
  Says Kept status (jpeg bytes frame_id timestamp_ms width height) = status ≡ none
  Says Kept status (raised what) = (status ≡ none) ⊎ Kept

  abbrev pub Proper : Type 0 → Response F → Type 0
  Proper Kept r = Says Kept r.status r.content

  -- The responses of the two branches of a test.
  pub Proper-if :
      (Kept : Type 0) (b : Bool) (r r' : Response F)
      → Proper Kept r
      → Proper Kept r'
      → Proper Kept (if b then r else r')
  Proper-if Kept true r r' h h' = h
  Proper-if Kept false r r' h h' = h'

  pub Proper-ite :
      {P : Type 0} (Kept : Type 0) (d : Dec P) (r r' : Response F)
      → Proper Kept r
      → Proper Kept r'
      → Proper Kept (ite d r r')
  Proper-ite Kept (yes p) r r' h h' = h
  Proper-ite Kept (no n) r r' h h' = h'

module _ {F : Type 0} (throws : ApiResponse F → Option String) where
  pub json_ok-printed :
      (message : String) (d : Data F)
      → throws (record { code = 0; message = message; data_ = d }) ≡ none
      → json_ok throws message d ≡ json (record { code = 0; message = message; data_ = d })
  unfolding json_ok
  json_ok-printed message d e = rw (e, json_ok) refl

  pub json_ok-Proper :
      (Kept : Type 0) (message : String) (d : Data F)
      → Proper Kept (answers (json_ok throws message d))
  unfolding json_ok
  json_ok-Proper Kept message d =
      elim (Option-cases (throws (record { code = 0; message = message; data_ = d }))) [
        | inl e ↦ rw (Says, e) (inl (refl, refl))
        | inr (what, e) ↦ rw (Says, e) (inl refl)
      ]

  pub json_error-Proper :
      (Kept : Type 0) (code : ℕ) (message : String)
      → Kept
      → Proper Kept (with_status code (json_error throws code message))
  unfolding json_error
  json_error-Proper Kept code message k =
      elim (Option-cases (throws (record { code = code; message = message; data_ = nothing }))) [
        | inl e ↦ rw (Says, e) (inr (refl, k))
        | inr (what, e) ↦ rw (Says, e) (inr k)
      ]

  -- Where nothing has changed, an exception is answered by the `catch`.
  pub caught-Proper :
      (Kept : Type 0) (r : Response F) → Kept → Proper Kept r → Proper Kept (caught throws r)
  unfolding caught
  caught-Proper Kept r k = go r.content
    where
      go :
          (c : Content F)
          → Says Kept r.status c
          → Proper Kept (caught throws (record r { content = c }))
      go (json resp) h = h
      go (jpeg bytes frame_id timestamp_ms width height) h = h
      go (raised what) h = json_error-Proper Kept 400 _ k

  pub answer_frame-Proper :
      (Kept : Type 0) (stream_id : String) (found : Option CachedFrame)
      → Kept
      → Proper Kept (answer_frame throws stream_id found)
  unfolding answer_frame
  answer_frame-Proper Kept stream_id none k = json_error-Proper Kept 404 _ k
  answer_frame-Proper Kept stream_id (some frame) k = elim (Option-cases frame.jpeg_data) [
    | inl e ↦ rw e (json_error-Proper Kept 404 _ k)
    | inr ([], e) ↦ rw e (json_error-Proper Kept 404 _ k)
    | inr (b ∷ bytes, e) ↦ rw e refl
  ]

  pub get_image-Proper :
      (Kept : Type 0) (has_cache : Bool) (q : ImageQuery) (cache : ImageCache)
      → Kept
      → Proper Kept (get_image throws has_cache q cache)
  unfolding get_image
  get_image-Proper Kept has_cache q cache k =
      let id = requested_stream q in
      let latest = answer_frame-Proper Kept id (get_latest_frame id cache) k in
      Proper-if Kept (not has_cache) _ _ (json_error-Proper Kept 503 _ k) (
        Proper-ite Kept (String_discrete id "") _ _ (json_error-Proper Kept 400 _ k) (
          Proper-if Kept (wants_latest q) _ _ latest (elim (Option-cases q.ts) [
            | inl e ↦ rw e latest
            | inr (none, e) ↦ rw e (json_error-Proper Kept 400 _ k)
            | inr (some ts, e) ↦
                rw e (answer_frame-Proper Kept id (get_nearest_frame id ts cache) k)
          ])))
