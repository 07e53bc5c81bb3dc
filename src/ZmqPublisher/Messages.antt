-- ===== src/ZmqPublisher/Messages.antt =====
-- What a subscriber reads in the messages of `publish`.
use infer_server.Base.{
  ◌≡◌, refl, ap, sym, ◌∙◌, String, suc, ◌+◌, ◌%◌, ◌<◌, Bool, true, false, List, [], ◌∷◌, ◌++◌,
  append_assoc, append-nil, Option, none, some, ◌>>=◌, length, length-append, arith,
}
use infer_server.Base.Word.{add64, word}
use infer_server.Types.{FrameResult}
use infer_server.Json.{JsonOps, JsonLaws}
use infer_server.Json.Results.{frame_result_to_json, frame_result_from_json}
use infer_server.Json.Results.RoundTrip.{frame_result_from_json-frame_result_to_json}
use infer_server.ZmqPublisher.{ZmqPublisher, make, init, publish}

module _ {F : Type 0} (ops : JsonOps F) (dump : ops.J → Option String) where
  open ops use {J}

  -- `j = result; j.dump()`
  unfoldable pub message_of : FrameResult F → Option String
  unfolding frame_result_to_json
  message_of r = dump (frame_result_to_json ops r)

  -- Results one after the other, and whether the socket takes the message of each at once.
  unfoldable pub publish_all : List (Bool × FrameResult F) → ZmqPublisher → ZmqPublisher
  unfolding publish message_of
  publish_all [] p = p
  publish_all ((takes, r) ∷ rs) p = publish_all rs (publish message_of takes r p)

  -- The results that can be serialised and whose message is taken.
  unfoldable kept : Bool → FrameResult F → Option String → List (FrameResult F)
  kept true r (some m) = r ∷ []
  kept _ _ _ = []

  unfoldable pub taken : List (Bool × FrameResult F) → List (FrameResult F)
  unfolding kept message_of
  taken [] = []
  taken ((takes, r) ∷ rs) = kept takes r (message_of r) ++ taken rs

  -- The messages that are sent of a result: one or none.
  unfoldable sent_of : Bool → Option String → List String
  sent_of true (some m) = m ∷ []
  sent_of _ _ = []

  unfoldable messages : List (Bool × FrameResult F) → List String
  unfolding sent_of message_of
  messages [] = []
  messages ((takes, r) ∷ rs) = sent_of takes (message_of r) ++ messages rs

  publish-sent :
      (takes : Bool) (r : FrameResult F) (p : ZmqPublisher)
      → p.initialized ≡ true
      → ((publish message_of takes r p).sent ≡ p.sent ++ sent_of takes (message_of r))
        × ((publish message_of takes r p).published_count % word
            ≡ (p.published_count + length (sent_of takes (message_of r))) % word)
        × ((publish message_of takes r p).initialized ≡ true)
  unfolding publish sent_of add64 message_of
  publish-sent takes r p i = go (message_of r) takes
    where
      go :
          (o : Option String) (takes : Bool)
          → ((publish (λ r. o) takes r p).sent ≡ p.sent ++ sent_of takes o)
            × ((publish (λ r. o) takes r p).published_count % word
                ≡ (p.published_count + length (sent_of takes o)) % word)
            × ((publish (λ r. o) takes r p).initialized ≡ true)
      go none true = rw i (sym (append-nil p.sent), omega arith, refl)
      go none false = rw i (sym (append-nil p.sent), omega arith, refl)
      go (some m) true = rw i (refl, omega arith, refl)
      go (some m) false = rw i (sym (append-nil p.sent), omega arith, refl)

  publish_all-messages :
      (rs : List (Bool × FrameResult F)) (p : ZmqPublisher)
      → p.initialized ≡ true
      → ((publish_all rs p).sent ≡ p.sent ++ messages rs)
        × ((publish_all rs p).published_count % word
            ≡ (p.published_count + length (messages rs)) % word)
  unfolding publish_all messages
  publish_all-messages [] p i = (sym (append-nil p.sent), omega arith)
  publish_all-messages ((takes, r) ∷ rs) p i =
      let now = publish-sent takes r p i in
      let rest = publish_all-messages rs (publish message_of takes r p) now.2 in
      (
        rest.0
            ∙ ap (λ ms. ms ++ messages rs) now.0
            ∙ append_assoc p.sent (sent_of takes (message_of r)) (messages rs),
        omega (arith, rest.1, now.1, length-append (sent_of takes (message_of r)) (messages rs)),
      )

  module _ (parse : String → Option J) (zero_f : F) where
    unfoldable pub read_each : List String → Option (List (FrameResult F))
    unfolding frame_result_from_json
    read_each [] = some []
    read_each (m ∷ ms) = do
      j ← parse m
      r ← frame_result_from_json ops zero_f j
      rs ← read_each ms
      some (r ∷ rs)

    -- The number is one of 64 bits, and the message is parsed as what it was made of.
    abbrev pub IsReadable : FrameResult F → Type 0
    IsReadable r =
        (r.frame_id < word)
        × ((m : String) → message_of r ≡ some m → parse m ≡ some (frame_result_to_json ops r))

    abbrev pub AreReadable : List (Bool × FrameResult F) → Type 0
    AreReadable [] = Unit
    AreReadable ((takes, r) ∷ rs) = IsReadable r × AreReadable rs

    -- The messages are read as the results that were taken.
    read_each-messages :
        JsonLaws ops
        → (rs : List (Bool × FrameResult F)) → AreReadable rs
        → (read_each (messages rs) ≡ some (taken rs)) × (length (messages rs) ≡ length (taken rs))
    unfolding read_each messages taken sent_of kept
    read_each-messages laws [] h = (refl, refl)
    read_each-messages laws ((takes, r) ∷ rs) h =
        go (message_of r) refl takes (read_each-messages laws rs h.1)
      where
        go :
            (o : Option String)
            → message_of r ≡ o
            → (takes : Bool)
            → (read_each (messages rs) ≡ some (taken rs))
              × (length (messages rs) ≡ length (taken rs))
            → (read_each (sent_of takes o ++ messages rs) ≡ some (kept takes r o ++ taken rs))
              × (length (sent_of takes o ++ messages rs) ≡ length (kept takes r o ++ taken rs))
        go none e true rest = rest
        go none e false rest = rest
        go (some m) e false rest = rest
        go (some m) e true rest = (
          rw
              (
                h.0.1 m e,
                frame_result_from_json-frame_result_to_json ops laws zero_f r h.0.0,
                rest.0,
              )
              refl,
          ap suc rest.1,
        )

    -- On a publisher that has just been initialised, with results each of which has a number of 64
    -- bits and a message that is parsed as what it was made of: what is sent is read as exactly
    -- the results that can be serialised and whose message the socket takes, in their order, and
    -- published_count is their number modulo 2^64.
    pub publish_all-taken :
        (laws : JsonLaws ops) (endpoint : String) (rs : List (Bool × FrameResult F))
        → AreReadable rs
        → (read_each (publish_all rs (init true (make endpoint)).0).sent ≡ some (taken rs))
          × ((publish_all rs (init true (make endpoint)).0).published_count % word
              ≡ length (taken rs) % word)
    unfolding init make
    publish_all-taken laws endpoint rs h =
        let sent = publish_all-messages rs (init true (make endpoint)).0 refl in
        let read = read_each-messages laws rs h in
        (ap read_each sent.0 ∙ read.0, omega (arith, sent.1, read.1))
