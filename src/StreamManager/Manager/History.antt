-- ===== src/StreamManager/Manager/History.antt =====
-- Histories of the stream manager: calls of its operations, steps of decode threads and results of
-- the workers. Each is one step here. In the source the end of `add_stream`, which saves, and of
-- `remove_stream`, which joins the thread, drops the pictures and saves, runs after the manager's
-- mutex is given back: a history is one in which no other call takes the mutex in between. Saves has
-- the saves that overlap.
use infer_server.Base.{String, List, [], ◌∷◌}
use infer_server.Types.{StreamConfig, FrameResult}
use infer_server.StreamManager.{Devices}
use infer_server.StreamManager.Manager.{
  StreamManager, World, add_stream, remove_stream, start_stream, stop_stream, start_all, stop_all,
  decode_in, load_and_start, on_infer_result,
}

pub data Call (F : Type 0) : Type 0 where
  adds : StreamConfig F → Call F
  removes : String → Call F
  starts : String → Call F
  stops : String → Call F
  starts_all : Call F
  stops_all : Call F
  loads : List (StreamConfig F) → Call F
  decodes : String → Call F
  infers : FrameResult F → Call F

module _ {F : Type 0} (dev : Devices) where
  unfoldable pub step : World → Call F → StreamManager F → StreamManager F
  unfolding add_stream remove_stream start_stream stop_stream start_all stop_all load_and_start
      decode_in on_infer_result
  step w (adds c) m = (add_stream dev w c m).0
  step w (removes cam) m = (remove_stream dev w cam m).0
  step w (starts cam) m = (start_stream dev w cam m).0
  step w (stops cam) m = (stop_stream dev w cam m).0
  step w starts_all m = start_all dev w m
  step w stops_all m = stop_all dev w m
  step w (loads configs) m = load_and_start dev w configs m
  step w (decodes cam) m = (decode_in dev w cam m).0
  step w (infers result) m = on_infer_result result m

  unfoldable pub run : List (World × Call F) → StreamManager F → StreamManager F
  unfolding step
  run [] m = m
  run ((w, call) ∷ calls) m = run calls (step w call m)
