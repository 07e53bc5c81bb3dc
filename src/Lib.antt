-- ===== src/Lib.antt =====
-- Verification of the inference server: a service that decodes RTSP streams, hands their frames to
-- NPU workers through a bounded queue, turns tensors into detections, joins the results of the
-- models of a frame, publishes them, and keeps the latest frames as JPEG pictures.
--
-- The parts and their files, with paths from the repository's root:
-- - BoundedQueue: include/infer_server/common/bounded_queue.h, the queue between the decode threads
--   and the workers. `push`, `try_pop`, `stop`, `clear`, `reset` are the methods of these names;
--   `pop` is the blocking one, with the calls of other threads as a schedule of wake-ups.
-- - Types: include/infer_server/common/types.h and the struct of config.h, over a type of floats.
-- - Json: the JSON macros of the structs for configurations (Configs), results (Results) and the
--   status of a stream (Status). Tree is a JSON value for tests.
-- - ConfigManager: src/common/config.cpp.
-- - FrameResultCollector: include/infer_server/inference/frame_result_collector.h.
-- - ImageCache: src/cache/image_cache.cpp. Its children are about the counters of bytes, the limit of
--   memory, the limit of time and the lookups.
-- - PostProcessor: src/inference/post_processor.cpp. Float has the arithmetic, Nms the suppression,
--   Yolo the decoding of one head and Yolo/Process the decoders and `process`.
-- - StreamManager: src/stream/stream_manager.cpp. Frame says what one decoded frame becomes, Decoding
--   is `decode_thread_func` as steps from one test of `stop_requested` to the next, Labels is
--   `load_labels_file`, and Manager has the operations on the streams. A history is a list of
--   operations, thread steps and results of workers, each of which runs to its end; Manager/Saves has
--   the saves apart, which run after the mutex is given back and may overlap.
-- - HwDecoder: src/decoder/hw_decoder.cpp. Lifecycle is about `open` (here `open_rtsp`) and `close`,
--   Packets about `decode_frame` and `skip_frame` over the packets of a stream, Planes about
--   `extract_nv12`.
-- - RgaProcessor: src/processor/rga_processor.cpp.
-- - ModelManager: src/inference/model_manager.cpp, with what it does at the RKNN runtime. Contexts
--   counts how often a context of the runtime is opened and destroyed.
-- - InferWorker: src/inference/infer_worker.cpp. Aggregation is about the results of several frames.
-- - InferenceEngine: src/inference/inference_engine.cpp, over the queue, the models, the workers and
--   the publisher. `work` is a round of `InferWorker::run`; a history is a list of calls and rounds.
-- - ZmqPublisher: src/output/zmq_publisher.cpp. Messages is about what a subscriber reads.
-- - RestServer: src/api/rest_server.cpp. Handlers and Image have the handlers of the routes.
-- - JpegEncoder: src/cache/jpeg_encoder.cpp. NpuCoreMask: the struct of this name in
--   include/infer_server/inference/model_manager.h.
-- - Base: lists, integers, 64-bit counters and maps, which the others share. Samples: data for tests.
--
-- A frame goes from Decoding to Frame, which makes the collector and the tasks; the workers return
-- results to FrameResultCollector, and the picture goes to ImageCache. The manager registers its
-- streams in ImageCache and runs Decoding's steps. The engine's workers take tasks from its
-- BoundedQueue, get their contexts from ModelManager, and their frames go to ZmqPublisher. The
-- handlers of RestServer call the manager, the cache and the engine.
--
-- Fuel: the loop that evicts for memory runs on one round more than there are frames, and each round
-- but the last takes a frame away. Suppression runs on as many rounds as detections. A join runs three
-- steps of the thread, after which it has ended.
--
-- Parameters: the floating-point operations, `std::sort`, the decoder's answers, the conversion of
-- pictures, the JPEG compressor, the files' contents, the file system, and what RKNN, FFmpeg, ZeroMQ,
-- the HTTP and the JSON library answer. 64-bit counters wrap; `int` arithmetic of the source is taken
-- without overflow. An iteration over an unordered map takes the order of the list that stands for it.
--
-- Not modelled: the logger and `main`; the start and the stop of the REST server; the JSON macro of
-- ApiResponse; in the image cache, the steps that concurrent calls take between its locks; and the
-- steps of remove_stream after the mutex is given back, but for its save. The decoder of HwDecoder and the
-- decoder's answers in StreamManager are not joined.
pub mod Base
pub mod Samples
pub mod BoundedQueue
pub mod Types
pub mod FrameResultCollector
pub mod ImageCache
pub mod PostProcessor
pub mod HwDecoder
pub mod RgaProcessor
pub mod StreamManager
pub mod JpegEncoder
pub mod NpuCoreMask
pub mod Json
pub mod ConfigManager
pub mod ModelManager
pub mod ZmqPublisher
pub mod InferWorker
pub mod InferenceEngine
pub mod RestServer
