-- ===== src/PostProcessor.antt =====
-- include/infer_server/inference/post_processor.h and src/inference/post_processor.cpp: from the
-- tensors that a model returns to detections. Floating-point arithmetic and `std::sort` are not
-- code of this repository: they are the fields of `FloatOps` and a parameter.
pub mod Float
pub mod Nms
pub mod Yolo
mod Tests
