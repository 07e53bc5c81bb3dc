-- ===== src/StreamManager/Tests.antt =====
-- Runs of the stream manager, and its theorems at concrete inputs.
use text.Mathlib.TextEquality.{eq_iff}
use infer_server.Base.{
  ℕ, ◌+◌, ◌*◌, ◌%◌, ◌≡◌, ◌≢◌, refl, inl, true, false, List, [], ◌∷◌, none, some, arith, map, length,
  if◌then◌else◌, String_discrete,
}
use infer_server.Base.Int.{pos}
use infer_server.Base.Dict.{find, insert, IsKeyed}
use infer_server.Types.{ModelResult, StreamState}
use infer_server.Samples.{devices, server, camera, frame, answers, world, no_streams}
use infer_server.FrameResultCollector.{make}
use infer_server.FrameResultCollector.Completion.{published, with_results}
use infer_server.StreamManager.{DecodeThread, StreamContext, inner, ended}
use infer_server.StreamManager.Frame.{tasks_of, task_of, rgb_of, usable, base_result}
use infer_server.StreamManager.Frame.Submission.{all_pictures, submitted-published}
use infer_server.StreamManager.Decoding.{run_thread}
use infer_server.StreamManager.Decoding.Stopping.{IsSound, run_thread-stop}
use infer_server.StreamManager.Decoding.Skipping.{
  every, reads, decoding, counted, outputs_of_all, run_thread-reads,
}
use infer_server.StreamManager.Manager.{
  StreamManager, World, add_stream, remove_stream, start_stream, stop_stream, find_stream,
  has_stream, launch, new_context, save_configs,
}
use infer_server.StreamManager.Manager.Joining.{Joined}
use infer_server.StreamManager.Manager.History.{
  Call, adds, removes, starts, stops, decodes, step, run,
}
use infer_server.StreamManager.Manager.Managed.{IsManaged}
use infer_server.StreamManager.Manager.Invariant.{run-IsManaged}
use infer_server.StreamManager.Labels.{load_labels}
use infer_server.StreamManager.Manager.Lookup.{
  Others, add_stream-find, start_stream-find, IsStarted, HasNoHistory, remove_stream-find,
  stop_stream-find,
}

no_streams-IsManaged : IsManaged no_streams
unfolding IsKeyed
no_streams-IsManaged = record { keyed = tt; each = tt }

-- A stream with its thread in the decoding loop.
abbrev streaming : StreamContext ℕ
streaming =
    decoding devices server 2 (pos 1920) (pos 1080) 5 1
      (record (launch world (new_context world (camera "a"))) { state = StreamState.running })

abbrev thread : DecodeThread
thread = record {
  point = inner (pos 2) (pos 1920) (pos 1080);
  local_frame_count = 5;
  backoff_sec = 1;
}

abbrev told : StreamContext ℕ
told = record streaming { stop_requested = true }

told-IsSound : IsSound told
unfolding launch
told-IsSound = ((refl, refl), inl refl)

run_thread-stop_example :
    (t' : DecodeThread) × (run_thread devices server (answers ∷ answers ∷ answers ∷ []) told ≡ (
      record told {
        state = StreamState.stopped;
        running = false;
        decode_thread = some (record t' { point = ended });
      },
      [],
    ))
run_thread-stop_example =
    run_thread-stop devices server answers answers answers thread told told-IsSound refl refl

run_thread-reads_example :
    ((run_thread devices server (map reads (frame ∷ frame ∷ frame ∷ [])) (
        decoding devices server 2
          (pos 1920)
          (pos 1080)
          5
          1
          (counted devices server 2 (pos 1920) (pos 1080) 9 streaming))).1
      ≡ outputs_of_all devices server 2
          (pos 1920)
          (pos 1080)
          streaming
          (every 2 5 (frame ∷ frame ∷ frame ∷ [])))
    × ((run_thread devices server (map reads (frame ∷ frame ∷ frame ∷ [])) (
          decoding devices server 2
            (pos 1920)
            (pos 1080)
            5
            1
            (counted devices server 2 (pos 1920) (pos 1080) 9 streaming))).0.decoded_frames
        ≡ 12)
    × (length (every 2 5 (frame ∷ frame ∷ frame ∷ [])) * 2 + 8 % 2 ≡ 3 + 5 % 2)
run_thread-reads_example =
    run_thread-reads devices server 2 (pos 1920) (pos 1080) (frame ∷ frame ∷ frame ∷ []) 5 1 9
      streaming (omega arith) (omega arith) (omega arith)

handled_twice : every 2 5 (frame ∷ frame ∷ frame ∷ []) ≡ (6, frame) ∷ (8, frame) ∷ []
unfolding every
handled_twice = refl

-- The picture for the second model fails: the result of the first is lost.
abbrev found_people : ModelResult ℕ
found_people = record {
  task_name = "people";
  model_path = "people";
  inference_time_ms = 3;
  detections = [];
}

one_task :
    1 ≡ length (tasks_of devices (pos 1920) (pos 1080) streaming frame (some 6) (camera "a").models)
unfolding tasks_of rgb_of usable task_of
one_task = refl

submitted-published_example :
    published
      (make 2 (base_result devices (pos 1920) (pos 1080) streaming.config frame))
      (found_people ∷ [])
    ≡ (if all_pictures devices (pos 1920) (pos 1080) streaming frame (camera "a").models
        then with_results
            (base_result devices (pos 1920) (pos 1080) streaming.config frame)
            (found_people ∷ [])
          ∷ []
        else [])
submitted-published_example =
    submitted-published devices (pos 1920) (pos 1080) streaming frame (some 6) (camera "a").models
      (found_people ∷ []) (omega arith) one_task

abbrev calls : List (World × Call ℕ)
calls =
    (world, adds (camera "a"))
    ∷ (world, adds (camera "b"))
    ∷ (world, decodes "a")
    ∷ (world, stops "a")
    ∷ (world, removes "b")
    ∷ (world, starts "a")
    ∷ []

run-IsManaged_example : IsManaged (run devices calls no_streams)
run-IsManaged_example = run-IsManaged devices calls no_streams no_streams-IsManaged

abbrev one_stream : StreamManager ℕ
one_stream = (add_stream devices world (camera "a") no_streams).0

one_stream-IsManaged : IsManaged one_stream
unfolding step run
one_stream-IsManaged =
    run-IsManaged devices ((world, adds (camera "a")) ∷ []) no_streams no_streams-IsManaged

one_stream-found : find_stream "a" one_stream ≡ some (launch world (new_context world (camera "a")))
unfolding find_stream add_stream save_configs String_discrete find insert
one_stream-found = refl

b_is_named : (camera "b").cam_id ≢ ""
b_is_named e = ground (arith, eq_iff "b" "", e)

b_is_missing : find_stream "b" one_stream ≡ none
unfolding find_stream add_stream save_configs String_discrete find insert
b_is_missing = refl

add_stream-find_example :
    ((add_stream devices world (camera "b") one_stream).1 ≡ true)
    × ((ctx : StreamContext ℕ) × (find_stream "b"
            (add_stream devices world (camera "b") one_stream).0
          ≡ some ctx)
        × (ctx.config ≡ camera "b")
        × (ctx.labels_cache ≡ load_labels world.files (camera "b").models [])
        × (ctx.encoder_valid ≡ true)
        × IsStarted devices world ctx
        × HasNoHistory devices world ctx)
    × Others devices world "b" (add_stream devices world (camera "b") one_stream).0 one_stream
add_stream-find_example =
    add_stream-find devices world (camera "b") one_stream b_is_named b_is_missing

-- A manager with a stream whose thread was joined.
abbrev resting : StreamContext ℕ
resting = record streaming {
  running = false;
  stop_requested = true;
  decode_thread = none;
  state = StreamState.stopped;
}

abbrev one_resting : StreamManager ℕ
one_resting = record no_streams { streams = ("a", resting) ∷ [] }

one_resting-found : find_stream "a" one_resting ≡ some resting
unfolding find_stream String_discrete find
one_resting-found = refl

start_stream-find_example :
    ((start_stream devices world "a" one_resting).1 ≡ true)
    × ((ctx' : StreamContext ℕ) × (find_stream "a" (start_stream devices world "a" one_resting).0
          ≡ some ctx')
        × (ctx'.config ≡ resting.config)
        × (ctx'.labels_cache ≡ resting.labels_cache)
        × IsStarted devices world ctx'
        × HasNoHistory devices world ctx')
    × Others devices world "a" (start_stream devices world "a" one_resting).0 one_resting
start_stream-find_example =
    start_stream-find devices world "a" resting one_resting one_resting-found refl

remove_stream-find_example :
    ((remove_stream devices world "a" one_stream).1 ≡ has_stream "a" one_stream)
    × (find_stream "a" (remove_stream devices world "a" one_stream).0 ≡ none)
    × Others devices world "a" (remove_stream devices world "a" one_stream).0 one_stream
remove_stream-find_example = remove_stream-find devices world "a" one_stream one_stream-IsManaged

stop_stream-find_example :
    ((stop_stream devices world "a" one_stream).1 ≡ true)
    × ((ctx' : StreamContext ℕ) × (find_stream "a" (stop_stream devices world "a" one_stream).0
          ≡ some ctx')
        × Joined devices server ctx' (launch world (new_context world (camera "a"))))
    × Others devices world "a" (stop_stream devices world "a" one_stream).0 one_stream
unfolding add_stream save_configs String_discrete
stop_stream-find_example =
    stop_stream-find devices world "a" (launch world (new_context world (camera "a"))) one_stream
      one_stream-IsManaged one_stream-found
