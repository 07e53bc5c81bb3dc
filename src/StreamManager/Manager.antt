-- ===== src/StreamManager/Manager.antt =====
-- The operations of `StreamManager` on its streams. Each runs to its end before the next; the steps
-- of the decode threads fall between them, save those that a `join` waits for.
pub mod Branches
pub mod Joining
pub mod History
pub mod Managed
pub mod Invariant
pub mod Lookup
pub mod Persistence
pub mod Saves
use infer_server.Base.{
  ℕ, zero, suc, ◌+◌, String, Bool, true, false, not, List, [], ◌∷◌, ◌++◌, Option, none, some, map,
  length, if◌then◌else◌, ite, String_discrete,
}
use infer_server.Base.Int.{pos}
use infer_server.Base.Word.{add64}
use infer_server.Base.Dict.{Dict, find, insert, erase, contains}
use infer_server.Types.{
  StreamConfig, ModelConfig, StreamState, StreamStatus, FrameResult, ServerConfig,
  stream_state_to_string,
}
use infer_server.ImageCache
use infer_server.ImageCache.{ImageCache}
use infer_server.PostProcessor.Float.{FloatOps}
use infer_server.StreamManager.{Point, DecodeThread, StreamContext, Answers, Devices, Output, outer}
use infer_server.StreamManager.Decoding.{thread_step, run_thread}
use infer_server.StreamManager.Labels.{Files, load_labels}

-- `loaded` are the models that the engine was asked to load, `saved` what the file at
-- `streams_save_path` holds.
pub record StreamManager (F : Type 0) : Type 0 where
  pub config : ServerConfig
  pub streams : Dict String (StreamContext F)
  pub cache : ImageCache
  pub loaded : List (ModelConfig F)
  pub saved : List (StreamConfig F)

-- What a call finds outside: the clock, the files, whether the save succeeds, whether a JPEG
-- encoder can be made, and what decoders answer to threads that are waited for.
pub record World : Type 0 where
  pub now : ℕ
  pub files : Files
  pub saves : Bool
  pub encoder_valid : Bool
  pub answers : Answers

module _ {F : Type 0} where
  unfoldable pub find_stream : String → StreamManager F → Option (StreamContext F)
  find_stream cam m = find String_discrete cam m.streams

  unfoldable pub put_stream : String → StreamContext F → StreamManager F → StreamManager F
  put_stream cam ctx m = record m { streams = insert String_discrete cam ctx m.streams }

  unfoldable pub get_all_configs : StreamManager F → List (StreamConfig F)
  get_all_configs m = map (λ e. e.1.config) m.streams

  unfoldable pub has_stream : String → StreamManager F → Bool
  unfolding contains
  has_stream cam m = contains String_discrete cam m.streams

  unfoldable pub stream_count : StreamManager F → ℕ
  stream_count m = length m.streams

  -- The snapshot of the configurations and its write as one step, which they are if no other call
  -- saves meanwhile (Saves has them apart). A failed save is only logged.
  unfoldable pub save_configs : World → StreamManager F → StreamManager F
  unfolding get_all_configs
  save_configs w m = if w.saves then record m { saved = get_all_configs m } else m

  -- The thread starts at the head of its outer loop.
  unfoldable pub launch : World → StreamContext F → StreamContext F
  launch w ctx = record ctx {
    stop_requested = false;
    running = true;
    state = StreamState.starting;
    start_time = w.now;
    decode_thread = some (record { point = outer; local_frame_count = 0; backoff_sec = 1 });
  }

  unfoldable pub new_context : World → StreamConfig F → StreamContext F
  unfolding load_labels
  new_context w c = record {
    config = c;
    state = StreamState.stopped;
    decode_thread = none;
    running = false;
    stop_requested = false;
    decoded_frames = 0;
    inferred_frames = 0;
    reconnect_count = 0;
    last_error = "";
    start_time = 0;
    encoder_valid = w.encoder_valid;
    labels_cache = load_labels w.files c.models [];
  }

  unfoldable pub stop_stream_internal : StreamContext F → StreamContext F
  stop_stream_internal ctx = if ctx.running then record ctx { stop_requested = true } else ctx

  -- The counters of a stream that starts again.
  unfoldable pub reset_statistics : StreamContext F → StreamContext F
  reset_statistics ctx = record ctx {
    decoded_frames = 0;
    inferred_frames = 0;
    reconnect_count = 0;
    last_error = "";
  }

  module _ (dev : Devices) (w : World) where
    -- `join`, if the thread is joinable: three steps more and it has ended (`run_thread-stop`).
    unfoldable pub join : ServerConfig → StreamContext F → StreamContext F
    unfolding run_thread
    join server ctx = elim ctx.decode_thread [
      | none ↦ ctx
      | some t ↦ record (run_thread dev server (w.answers ∷ w.answers ∷ w.answers ∷ []) ctx).0 {
        decode_thread = none;
      }
    ]

    unfoldable pub add_stream : StreamConfig F → StreamManager F → StreamManager F × Bool
    unfolding find_stream launch new_context save_configs
    add_stream c m =
        let cache = if dev.has_cache then ImageCache.add_stream c.cam_id m.cache else m.cache in
        let loaded = if dev.has_engine then m.loaded ++ c.models else m.loaded in
        let m' = record m {
          streams = insert String_discrete c.cam_id (launch w (new_context w c)) m.streams;
          cache = cache;
          loaded = loaded;
        } in
        ite (String_discrete c.cam_id "") (m, false)
          (elim (find_stream c.cam_id m) [ some _ ↦ (m, false) | none ↦ (save_configs w m', true) ])

    unfoldable pub remove_stream : String → StreamManager F → StreamManager F × Bool
    unfolding find_stream save_configs
    remove_stream cam m =
        let cache = if dev.has_cache then ImageCache.remove_stream cam m.cache else m.cache in
        let m' = record m { streams = erase String_discrete cam m.streams; cache = cache } in
        elim (find_stream cam m) [ none ↦ (m, false) | some ctx ↦ (save_configs w m', true) ]

    unfoldable pub start_stream : String → StreamManager F → StreamManager F × Bool
    unfolding find_stream put_stream join launch reset_statistics
    start_stream cam m = elim (find_stream cam m) [
      | none ↦ (m, false)
      | some ctx ↦
          if ctx.running
          then (m, true)
          else (put_stream cam (launch w (reset_statistics (join m.config ctx))) m, true)
    ]

    unfoldable pub stop_stream : String → StreamManager F → StreamManager F × Bool
    unfolding find_stream put_stream join stop_stream_internal
    stop_stream cam m = elim (find_stream cam m) [
      | none ↦ (m, false)
      | some ctx ↦ (put_stream cam (join m.config (stop_stream_internal ctx)) m, true)
    ]

    -- The streams that `start_all` starts.
    unfoldable pub not_running : Dict String (StreamContext F) → List String
    not_running [] = []
    not_running ((cam, ctx) ∷ streams) =
        if ctx.running then not_running streams else cam ∷ not_running streams

    unfoldable pub start_each : List String → StreamManager F → StreamManager F
    unfolding start_stream
    start_each [] m = m
    start_each (cam ∷ cams) m = start_each cams (start_stream cam m).0

    unfoldable pub start_all : StreamManager F → StreamManager F
    unfolding not_running start_each
    start_all m = start_each (not_running m.streams) m

    -- `stop_all`, with which `shutdown` ends every stream.
    unfoldable pub stop_all : StreamManager F → StreamManager F
    unfolding join stop_stream_internal
    stop_all m = record m {
      streams = map (λ e. (e.0, join m.config (stop_stream_internal e.1))) m.streams;
    }

    unfoldable pub load_and_start : List (StreamConfig F) → StreamManager F → StreamManager F
    unfolding add_stream
    load_and_start [] m = m
    load_and_start (c ∷ configs) m = load_and_start configs (add_stream c m).0

    -- The thread of a stream takes a step.
    unfoldable pub decode_in : String → StreamManager F → StreamManager F × List (Output F)
    unfolding find_stream put_stream thread_step
    decode_in cam m = elim (find_stream cam m) [
      | none ↦ (m, [])
      | some ctx ↦
          let one = thread_step dev m.config w.answers ctx in (put_stream cam one.0 m, one.1)
    ]

  unfoldable pub on_infer_result : FrameResult F → StreamManager F → StreamManager F
  unfolding find_stream put_stream add64
  on_infer_result result m = elim (find_stream result.cam_id m) [
    | none ↦ m
    | some ctx ↦
        put_stream result.cam_id (record ctx { inferred_frames = add64 ctx.inferred_frames 1 }) m
  ]

-- `build_status`, with the time since the start. The counters are converted to `double`.
module _ (ops : FloatOps) where
  open ops use {F, zero_f, div, of_int, lt}

  unfoldable pub build_status : F → StreamContext F → StreamStatus F
  unfolding stream_state_to_string
  build_status uptime ctx =
      let rate = λ (n : ℕ). if lt zero_f uptime then div (of_int (pos n)) uptime else zero_f in
      record {
        cam_id = ctx.config.cam_id;
        rtsp_url = ctx.config.rtsp_url;
        status = stream_state_to_string ctx.state;
        frame_skip = ctx.config.frame_skip;
        models = ctx.config.models;
        decoded_frames = ctx.decoded_frames;
        inferred_frames = ctx.inferred_frames;
        dropped_frames = 0;
        decode_fps = rate ctx.decoded_frames;
        infer_fps = rate ctx.inferred_frames;
        reconnect_count = ctx.reconnect_count;
        last_error = ctx.last_error;
        uptime_seconds = uptime;
      }

  unfoldable pub get_status :
      (StreamContext F → F) → String → StreamManager F → Option (StreamStatus F)
  unfolding find_stream build_status
  get_status uptime cam m = elim (find_stream cam m) [
    | none ↦ none
    | some ctx ↦ some (build_status (uptime ctx) ctx)
  ]

  unfoldable pub get_all_status : (StreamContext F → F) → StreamManager F → List (StreamStatus F)
  unfolding build_status
  get_all_status uptime m = map (λ e. build_status (uptime e.1) e.1) m.streams
