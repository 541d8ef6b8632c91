-- ===== src/Inference/Loading/Language/Total.antt =====
-- When `_patch_sdpa_to_mem_efficient` is done.
use locate_anything_setup.Prelude.{List}
