-- ===== src/Inference.antt =====
-- worker/inference.py: the sampling parameters, the image, the run and the variant of its reply.
pub mod Config
pub mod Image
pub mod Variant
pub mod Engine
pub mod Loading
