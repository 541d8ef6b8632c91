-- ===== src/Worker/Capabilities/Limits.antt =====
-- The limits that the worker names, and what its resize plan does.
use locate_anything_setup.Prelude.{ℕ, ◌≡◌, ◌≤◌, ◌*◌, ◌%◌, some}
use locate_anything_setup.Float.{Float}
use locate_anything_setup.Text.{Text}
use locate_anything_setup.Pixel.{ImageResize, plan_resize, total_patches}
use locate_anything_setup.Pixel.Plan.{
  plan_resize-tokens, plan_resize-max_dim, total_patches_max_dim,
}
use locate_anything_setup.Worker.App.{WorkerApp}
use locate_anything_setup.Worker.Capabilities.{capabilities}

module _ {F : Type 0} ⦃fl : Float F⦄ where
  -- An image whose sides are at most the `max_image_dim` that the worker names, and that has a
  -- plan, has at most the patches and the plan at most the tokens that it names; and the sides of
  -- the plan are its patches of the size that it names, and multiples of the side of a token that
  -- it names.
  pub capabilities-plan_resize :
      (model_dir : Text) (app : WorkerApp F) (w h : ℕ) (r : ImageResize F)
      → plan_resize w h ≡ some r
      → w ≤ (capabilities model_dir app).max_image_dim
      → h ≤ (capabilities model_dir app).max_image_dim
      → (total_patches w h ≤ (capabilities model_dir app).in_token_limit)
        × (r.n_llm_tokens ≤ (capabilities model_dir app).max_llm_tokens_per_image)
        × (r.n_patches_w * (capabilities model_dir app).patch_px ≡ r.dst_w)
        × (r.n_patches_h * (capabilities model_dir app).patch_px ≡ r.dst_h)
        × (r.dst_w % (capabilities model_dir app).llm_token_px ≡ 0)
        × (r.dst_h % (capabilities model_dir app).llm_token_px ≡ 0)
  unfolding capabilities
  capabilities-plan_resize model_dir app w h r e hw hh =
      let (a, b, _, _, c, d, _) = plan_resize-tokens w h r e in
      (total_patches_max_dim w h hw hh, plan_resize-max_dim w h r e hw hh, c, d, a, b)
