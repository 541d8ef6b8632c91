-- ===== src/Tests/Pixels.antt =====
-- The resize plan and the gates at sizes of images.
use locate_anything_setup.Prelude.{ℕ, ◌≡◌, ◌≤◌, ◌<◌, ◌+◌, ◌*◌, ◌/◌, ◌%◌, refl, some, arith}
use locate_anything_setup.Outcome.{ok}
use locate_anything_setup.Pixel.{
  ImageResize, plan_resize, downscale, ceil_to_grid, total_patches, in_token_limit,
  max_llm_tokens_per_image,
}
use locate_anything_setup.Pixel.Plan.{ceil_to_grid_bounds, plan_resize-tokens, plan_resize-over}
use locate_anything_setup.Inference.Image.{size_gates}
use locate_anything_setup.Inference.Image.Laws.{size_gates-plan_resize}
use locate_anything_setup.Tests.Base.{thousandths}

abbrev pub small_plan : ImageResize ℕ
small_plan = record {
  src_w = 640;
  src_h = 480;
  dst_w = 644;
  dst_h = 504;
  n_patches_w = 46;
  n_patches_h = 36;
  n_llm_tokens = 414;
  scale = 1006;
}

abbrev large_plan : ImageResize ℕ
large_plan = record {
  src_w = 2241;
  src_h = 2253;
  dst_w = 2268;
  dst_h = 2268;
  n_patches_w = 162;
  n_patches_h = 162;
  n_llm_tokens = 6561;
  scale = 1012;
}

pub small_plan_made : plan_resize 640 480 ≡ some small_plan
unfolding plan_resize thousandths downscale
small_plan_made = refl

large_plan_made : plan_resize 2241 2253 ≡ some large_plan
unfolding plan_resize thousandths downscale
large_plan_made = refl

ceil_to_grid_bounds_example :
    (640 ≤ ceil_to_grid 640) × (ceil_to_grid 640 < 640 + 28) × (ceil_to_grid 640 % 28 ≡ 0)
ceil_to_grid_bounds_example = ceil_to_grid_bounds 640

plan_resize-tokens_example :
    (644 % 28 ≡ 0)
    × (504 % 28 ≡ 0)
    × (46 < 512)
    × (36 < 512)
    × (46 * 14 ≡ 644)
    × (36 * 14 ≡ 504)
    × (414 ≡ (644 / 28) * (504 / 28))
plan_resize-tokens_example = plan_resize-tokens 640 480 small_plan small_plan_made

plan_resize-over_example :
    (total_patches 2241 2253 ≤ in_token_limit)
    × (max_llm_tokens_per_image < large_plan.n_llm_tokens)
plan_resize-over_example =
    plan_resize-over 2241 2253 large_plan (omega arith) (omega arith) (omega arith) (omega arith)
      large_plan_made

small_gated : size_gates 640 480 ≡ ok tt
unfolding size_gates
small_gated = refl

size_gates-plan_resize_example :
    (r : ImageResize ℕ) × (plan_resize 640 480 ≡ some r)
    × (r.dst_w ≡ ceil_to_grid 640)
    × (r.dst_h ≡ ceil_to_grid 480)
    × (r.src_w ≡ 640)
    × (r.src_h ≡ 480)
size_gates-plan_resize_example =
    size_gates-plan_resize 640 480 (omega arith) (omega arith) small_gated
