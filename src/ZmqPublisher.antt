-- ===== src/ZmqPublisher.antt =====
-- include/infer_server/output/zmq_publisher.h and src/output/zmq_publisher.cpp: the socket on which
-- results are published. Of ZeroMQ and the JSON library only the answers are known: they are
-- arguments. `sent` are the messages that the socket has taken.
pub mod Messages
pub mod Tests
use infer_server.Base.{
  String, ℕ, Bool, true, false, List, [], ◌∷◌, ◌++◌, Option, none, some, if◌then◌else◌,
}
use infer_server.Base.Word.{add64}
use infer_server.Types.{FrameResult}

pub record ZmqPublisher : Type 0 where
  pub endpoint : String
  pub zmq_ctx : Bool
  pub pub_socket : Bool
  pub initialized : Bool
  pub published_count : ℕ
  pub sent : List String

-- The constructor.
unfoldable pub make : String → ZmqPublisher
make endpoint = record {
  endpoint = endpoint;
  zmq_ctx = false;
  pub_socket = false;
  initialized = false;
  published_count = 0;
  sent = [];
}

-- Whether context, socket, options and `bind` succeed; a failure throws, and the pointers go.
unfoldable pub init : Bool → ZmqPublisher → ZmqPublisher × Bool
init binds p =
    if p.initialized
    then (p, true)
    else if binds
    then (record p { zmq_ctx = true; pub_socket = true; initialized = true }, true)
    else (record p { zmq_ctx = false; pub_socket = false }, false)

-- The message, if the result can be serialised and the socket takes it at once. Everything else is
-- logged.
unfoldable pub publish :
    {F : Type 0}
    → (FrameResult F → Option String)
    → Bool
    → FrameResult F
    → ZmqPublisher
    → ZmqPublisher
unfolding add64
publish dump takes result p =
    if p.initialized
    then elim (dump result) [
      | none ↦ p
      | some message ↦
          if takes
          then record p {
            published_count = add64 p.published_count 1;
            sent = p.sent ++ message ∷ [];
          }
          else p
    ]
    else p

-- `closes`: neither `close` throws. Otherwise the pointers may stay, of which the model keeps both.
unfoldable pub shutdown : Bool → ZmqPublisher → ZmqPublisher
shutdown closes p =
    if p.initialized
    then if closes
      then record p { zmq_ctx = false; pub_socket = false; initialized = false }
      else record p { initialized = false }
    else p
