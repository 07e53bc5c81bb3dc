-- ===== src/InferenceEngine/Tests.antt =====
-- Runs of the engine, and its theorems at concrete inputs.
use infer_server.Base.{
  length, ◌%◌, ℕ, ◌+◌, ◌≡◌, refl, arith, true, false, List, [], ◌∷◌, ◌++◌, some, String_discrete,
}
use infer_server.Samples.{server, halves, model, task}
use infer_server.Base.Int.{pos}
use infer_server.Base.Dict.{find, contains, insert}
use infer_server.ModelManager
use infer_server.ModelManager.{
  Runtime, RknnTensorAttr, NativeCall, is_loaded, load_model, read_model, store_model, query_info,
  query_attrs, destroys, sets_core_mask,
}
use infer_server.ModelManager.Contexts.{opened, closed}
use infer_server.InferWorker
use infer_server.InferWorker.{TaskWorld, pre_create_context}
use infer_server.ZmqPublisher
use infer_server.NpuCoreMask.{from_worker_id}
use infer_server.InferenceEngine.{
  total_processed, LoadWorld, Round, make, init, make_workers, core_mask_of, load_one,
  pre_create_each, shutdown,
}
use infer_server.InferenceEngine.Contexts.{held}
use infer_server.InferenceEngine.History.{Call, inits, loads, submits, works, step, run}
use infer_server.Base.Word.{word}
use infer_server.InferenceEngine.Account.{accepted, run-make-tasks}
use infer_server.InferenceEngine.Ownership.{run-make-Balance, shutdown-run-even}

abbrev attr : RknnTensorAttr ℕ
attr = record {
  n_dims = 4;
  dims = 1 ∷ 80 ∷ 80 ∷ 255 ∷ [];
  n_elems = 1632000;
  is_type_int8 = false;
  zp = pos 0;
  scale = 1;
}

-- A runtime that opens this context.
abbrev runtime : ℕ → Runtime ℕ
runtime ctx = record {
  file_size = some (pos 3);
  read = some (1 ∷ 2 ∷ 3 ∷ []);
  rknn_init = some ctx;
  query_in_out_num = some (record { n_input = 1; n_output = 1 });
  query_input_attr = λ i. some attr;
  query_output_attr = λ i. some attr;
  set_core_mask = true;
}

abbrev load : LoadWorld ℕ
load = record { loads = runtime 5; creates = λ i. runtime (10 + i) }

abbrev round : Round ℕ
round = record {
  worker = 1;
  task_world = record {
    runtime = runtime 20;
    inputs_set = true;
    runs = true;
    outputs_get = some (λ i k. 0);
    total_ms = 9;
  };
  publishing = record { dump = λ result. some "frame"; takes = true };
}

abbrev started : List (Call ℕ)
started = inits (λ i. 0) true ∷ loads load (model "people" 640) ∷ []

abbrev history : List (Call ℕ)
history = started ++ submits task ∷ works round ∷ []

run-make-Balance_example :
    opened 11 (run halves (λ ds. ds) history (make server)).native_calls
    ≡ closed 11 (run halves (λ ds. ds) history (make server)).native_calls
      + held 11 (run halves (λ ds. ds) history (make server))
run-make-Balance_example = run-make-Balance halves (λ ds. ds) 11 (omega arith) server history

-- The master context, and one for each of the three workers, the last without a core of its own.
started-run :
    (run halves (λ ds. ds) started (make server)).native_calls
    ≡ NativeCall.inits 5
      ∷ NativeCall.inits 10
      ∷ sets_core_mask 10 1
      ∷ NativeCall.inits 11
      ∷ sets_core_mask 11 2
      ∷ NativeCall.inits 12
      ∷ []
unfolding run step init make_workers core_mask_of from_worker_id load_one pre_create_each make
    InferWorker.make InferWorker.start ZmqPublisher.make ZmqPublisher.init pre_create_context
    ModelManager.create_worker_context ModelManager.find_model ModelManager.bind_core is_loaded
    load_model read_model store_model query_info query_attrs find contains insert String_discrete
started-run = refl

started-initialized : (run halves (λ ds. ds) started (make server)).initialized ≡ true
unfolding run step init load_one make_workers core_mask_of from_worker_id make InferWorker.make
    InferWorker.start ZmqPublisher.make ZmqPublisher.init is_loaded load_model read_model
    store_model query_info query_attrs find contains
started-initialized = refl

shutdown-run-even_example :
    opened 11
      (shutdown halves
        (λ ds. ds)
        (λ i. round ∷ [])
        true
        (run halves (λ ds. ds) started (make server))).native_calls
    ≡ closed 11
        (shutdown halves
          (λ ds. ds)
          (λ i. round ∷ [])
          true
          (run halves (λ ds. ds) started (make server))).native_calls
shutdown-run-even_example =
    shutdown-run-even halves (λ ds. ds) 11 (omega arith) server started (λ i. round ∷ []) true
      started-initialized

run-make-tasks_example :
    (total_processed (run halves (λ ds. ds) history (make server))
        + length (run halves (λ ds. ds) history (make server)).task_queue.items
        + (run halves (λ ds. ds) history (make server)).task_queue.dropped_count)
      % word
    ≡ accepted halves (λ ds. ds) history (make server) % word
run-make-tasks_example = run-make-tasks halves (λ ds. ds) server history (tt, (tt, (tt, (tt, tt))))
