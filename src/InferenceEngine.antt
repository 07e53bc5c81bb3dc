-- ===== src/InferenceEngine.antt =====
-- include/infer_server/inference/inference_engine.h and src/inference/inference_engine.cpp: the
-- engine, which owns the models, the task queue, the workers and the publisher. A round of a worker
-- thread, from one test of `stop_requested` to the next, is one step, and so is each call. What the
-- engine has done at the RKNN runtime, and the results that its callback has received, are kept
-- beside its members.
pub mod Workers
pub mod History
pub mod Contexts
pub mod Rounds
pub mod Shutdown
mod Tests
pub mod Ownership
pub mod Tasks
pub mod Account
use infer_server.Base.{
  ℕ, zero, suc, ◌+◌, String, Bool, true, false, List, [], ◌∷◌, ◌++◌, Option, none, some, map,
  length, ◌&&◌, get_elem?, if◌then◌else◌,
}
use infer_server.Base.Int.{ℤ, pos, pos_part, ltb_ℤ}
use infer_server.Base.Word.{add64, size_of_int}
use infer_server.Types.{ModelConfig, InferTask, FrameResult, ServerConfig, Detection}
use infer_server.BoundedQueue
use infer_server.BoundedQueue.{BoundedQueue}
use infer_server.NpuCoreMask.{from_worker_id}
use infer_server.ModelManager.{ModelManager, Runtime, NativeCall, load_model, is_loaded, unload_all}
use infer_server.InferWorker
use infer_server.InferWorker.{
  InferWorker, TaskWorld, Collectors, pre_create_context, process_popped,
}
use infer_server.PostProcessor.Float.{FloatOps}
use infer_server.ZmqPublisher
use infer_server.ZmqPublisher.{ZmqPublisher}

pub record InferenceEngine (F : Type 0) : Type 0 where
  pub config : ServerConfig
  pub model_mgr : ModelManager F
  pub task_queue : BoundedQueue (InferTask F)
  pub workers : List InferWorker
  pub zmq_pub : ZmqPublisher
  pub has_callback : Bool
  pub initialized : Bool
  pub collectors : Collectors F
  pub native_calls : List NativeCall
  pub called_back : List (FrameResult F)

-- What the publisher meets: how a result is serialised, if it can be, and whether the socket takes
-- a message at once.
pub record Publishing (F : Type 0) : Type 0 where
  pub dump : FrameResult F → Option String
  pub takes : Bool

-- What `load_models` meets at one model: the runtime when it is loaded, and when each worker's
-- context is made.
pub record LoadWorld (F : Type 0) : Type 0 where
  pub loads : Runtime F
  pub creates : ℕ → Runtime F

-- A round of a worker: its number and what it meets.
pub record Round (F : Type 0) : Type 0 where
  pub worker : ℕ
  pub task_world : TaskWorld F
  pub publishing : Publishing F

-- `xs[i] = x`
unfoldable pub set_at {ℓ} : {A : Type ℓ} → ℕ → A → List A → List A
set_at i x [] = []
set_at zero x (y ∷ ys) = x ∷ ys
set_at (suc i) x (y ∷ ys) = y ∷ set_at i x ys

-- The core mask of worker `i`. `beyond` is what stands in memory behind `CORES`, which is read for a
-- number that has no core.
unfoldable pub core_mask_of : (ℕ → ℕ) → ℤ → ℕ → ℕ
unfolding from_worker_id
core_mask_of beyond num_npu_cores i = elim (from_worker_id (pos i) num_npu_cores) [
  | none ↦ beyond i
  | some mask ↦ mask
]

-- The loop that makes the workers, from number `i` on.
unfoldable pub make_workers : (ℕ → ℕ) → ℤ → ℕ → ℕ → List InferWorker
unfolding InferWorker.make core_mask_of
make_workers beyond num_npu_cores i zero = []
make_workers beyond num_npu_cores i (suc n) =
    InferWorker.make i (core_mask_of beyond num_npu_cores i)
    ∷ make_workers beyond num_npu_cores (suc i) n

unfoldable pub total_from : ℕ → List InferWorker → ℕ
unfolding add64
total_from total [] = total
total_from total (v ∷ workers) = total_from (add64 total v.processed_count) workers

module _ {F : Type 0} where
  -- The constructor.
  unfoldable pub make : ServerConfig → InferenceEngine F
  unfolding BoundedQueue.make ZmqPublisher.make size_of_int
  make config = record {
    config = config;
    model_mgr = record { models = [] };
    task_queue = BoundedQueue.make (size_of_int config.infer_queue_size);
    workers = [];
    zmq_pub = ZmqPublisher.make config.zmq_endpoint;
    has_callback = false;
    initialized = false;
    collectors = [];
    native_calls = [];
    called_back = [];
  }

  -- `none` is the exception with which `reserve` refuses a negative number of workers.
  unfoldable pub init : (ℕ → ℕ) → Bool → InferenceEngine F → InferenceEngine F × Option Bool
  unfolding make_workers InferWorker.start ZmqPublisher.init
  init beyond binds e =
      let zmq = ZmqPublisher.init binds e.zmq_pub in
      let made =
        make_workers beyond e.config.num_npu_cores 0 (pos_part e.config.num_infer_workers) in
      if e.initialized
      then (e, some true)
      else if zmq.1
      then if ltb_ℤ e.config.num_infer_workers (pos 0)
        then (record e { zmq_pub = zmq.0 }, none)
        else (
          record e {
            zmq_pub = zmq.0;
            workers = map InferWorker.start (e.workers ++ made);
            initialized = true;
          },
          some true,
        )
      else (record e { zmq_pub = zmq.0 }, some false)

  -- The contexts that the workers make ahead, from worker `i` on, and whether all could be made.
  unfoldable pub pre_create_each :
      String
      → (ℕ → Runtime F)
      → ModelManager F
      → ℕ
      → List InferWorker
      → (List InferWorker × Bool) × List NativeCall
  unfolding pre_create_context
  pre_create_each model_path ws m i [] = (([], true), [])
  pre_create_each model_path ws m i (v ∷ workers) =
      let one = pre_create_context model_path (ws i) m v in
      let rest = pre_create_each model_path ws m (suc i) workers in
      ((one.0.1 ∷ rest.0.0, one.0.0 && rest.0.1), one.1 ++ rest.1)

  -- One round of the loop of `load_models`.
  unfoldable pub load_one :
      LoadWorld F → ModelConfig F → InferenceEngine F → InferenceEngine F × Bool
  unfolding is_loaded load_model pre_create_each
  load_one w mc e =
      let loaded = load_model mc.model_path w.loads e.model_mgr in
      let created = pre_create_each mc.model_path w.creates loaded.0.0 0 e.workers in
      if is_loaded mc.model_path e.model_mgr
      then (e, true)
      else if loaded.0.1
      then (
        record e {
          model_mgr = loaded.0.0;
          workers = created.0.0;
          native_calls = e.native_calls ++ (loaded.1 ++ created.1);
        },
        created.0.1,
      )
      else (record e { model_mgr = loaded.0.0; native_calls = e.native_calls ++ loaded.1 }, false)

  -- The worlds are those of the rounds, from number `i` on.
  unfoldable pub load_models :
      (ℕ → LoadWorld F) → ℕ → List (ModelConfig F) → InferenceEngine F → InferenceEngine F × Bool
  unfolding load_one
  load_models ws i [] e = (e, true)
  load_models ws i (mc ∷ models) e =
      let one = load_one (ws i) mc e in
      let rest = load_models ws (suc i) models one.0 in (rest.0, one.1 && rest.1)

  unfoldable pub submit : InferTask F → InferenceEngine F → InferenceEngine F × Bool
  unfolding BoundedQueue.push
  submit task e =
      let pushed = BoundedQueue.push task e.task_queue in
      if e.initialized then (record e { task_queue = pushed.0 }, pushed.1) else (e, false)

  unfoldable pub on_result_complete :
      Publishing F → FrameResult F → InferenceEngine F → InferenceEngine F
  unfolding ZmqPublisher.publish
  on_result_complete w result e = record e {
    zmq_pub = ZmqPublisher.publish w.dump w.takes result e.zmq_pub;
    called_back = if e.has_callback then e.called_back ++ result ∷ [] else e.called_back;
  }

  unfoldable pub set_result_callback : InferenceEngine F → InferenceEngine F
  set_result_callback e = record e { has_callback = true }

  unfoldable pub total_processed : InferenceEngine F → ℕ
  unfolding total_from
  total_processed e = total_from 0 e.workers

  -- `stop` of worker `i`.
  unfoldable pub stop_worker : ℕ → InferenceEngine F → InferenceEngine F
  unfolding InferWorker.stop set_at
  stop_worker i e = elim (get_elem? e.workers i) [
    | none ↦ e
    | some v ↦
        let stopped = InferWorker.stop v in
        record e {
          workers = set_at i stopped.0 e.workers;
          native_calls = e.native_calls ++ stopped.1;
        }
  ]

-- What a frame that is complete leads to.
unfoldable pub complete :
    {F : Type 0} → Publishing F → Option (FrameResult F) → InferenceEngine F → InferenceEngine F
unfolding on_result_complete
complete w none e = e
complete w (some result) e = on_result_complete w result e

module _ (ops : FloatOps) (sort : List (Detection ops.F) → List (Detection ops.F)) where
  open ops use {F}

  -- A round of the worker: `pop`, and what follows it.
  unfoldable pub work : Round F → InferenceEngine F → InferenceEngine F
  unfolding BoundedQueue.try_pop process_popped set_at complete
  work r e = elim (get_elem? e.workers r.worker) [
    | none ↦ e
    | some v ↦
        let popped = BoundedQueue.try_pop e.task_queue in
        let done = process_popped ops sort r.task_world e.model_mgr popped.0 e.collectors v in
        if v.running
        then complete r.publishing done.1 (record e {
          task_queue = popped.1;
          workers = set_at r.worker done.0.0 e.workers;
          collectors = done.0.1;
          native_calls = e.native_calls ++ done.2;
        })
        else e
  ]

  unfoldable pub work_all : List (Round F) → InferenceEngine F → InferenceEngine F
  unfolding work
  work_all [] e = e
  work_all (r ∷ rounds) e = work_all rounds (work r e)

  -- The loop that stops the workers. Before the thread of a worker has ended, it and those behind it
  -- make rounds.
  unfoldable pub stop_workers : (ℕ → List (Round F)) → ℕ → ℕ → InferenceEngine F → InferenceEngine F
  unfolding work_all stop_worker
  stop_workers rounds i zero e = e
  stop_workers rounds i (suc n) e =
      stop_workers rounds (suc i) n (stop_worker i (work_all (rounds i) e))

  -- Also the destructor. `closes`: the publisher closes without an error.
  unfoldable pub shutdown : (ℕ → List (Round F)) → Bool → InferenceEngine F → InferenceEngine F
  unfolding stop_workers ZmqPublisher.shutdown unload_all BoundedQueue.stop
  shutdown rounds closes e =
      let e' =
        stop_workers rounds 0 (length e.workers)
          (record e { task_queue = BoundedQueue.stop e.task_queue }) in
      let unloaded = unload_all e'.model_mgr in
      if e.initialized
      then record e' {
        workers = [];
        zmq_pub = ZmqPublisher.shutdown closes e'.zmq_pub;
        model_mgr = unloaded.0;
        native_calls = e'.native_calls ++ unloaded.1;
        initialized = false;
      }
      else e
