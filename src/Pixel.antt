-- ===== src/Pixel.antt =====
-- worker/pixel_token_math.py: the resize plan of the image processor.
pub mod Plan
use locate_anything_setup.Prelude.{
  ℕ, ◌+◌, ◌-◌, ◌*◌, ◌/◌, Bool, true, false, ◌||◌, Option, none, some, ltb, leb, ◌==◌, if◌then◌else◌,
}
use locate_anything_setup.Float.{Float}

abbrev pub patch_size : ℕ
patch_size = 14

abbrev pub merge_kernel : ℕ
merge_kernel = 2

abbrev pub llm_token_px : ℕ
llm_token_px = patch_size * merge_kernel

abbrev pub in_token_limit : ℕ
in_token_limit = 25600

abbrev pub max_llm_tokens_per_image : ℕ
max_llm_tokens_per_image = in_token_limit / (merge_kernel * merge_kernel)

abbrev pub max_patches_per_side : ℕ
max_patches_per_side = 512

pub record ImageResize (F : Type 0) : Type 0 where
  pub src_w : ℕ
  pub src_h : ℕ
  pub dst_w : ℕ
  pub dst_h : ℕ
  pub n_patches_w : ℕ
  pub n_patches_h : ℕ
  pub n_llm_tokens : ℕ
  pub scale : F

-- `((d + grid - 1) // grid) * grid`
unfoldable pub ceil_to_grid : ℕ → ℕ
ceil_to_grid d = ((d + llm_token_px - 1) / llm_token_px) * llm_token_px

-- `(w // PATCH_SIZE) * (h // PATCH_SIZE)`
abbrev pub total_patches : ℕ → ℕ → ℕ
total_patches w h = (w / patch_size) * (h / patch_size)

module _ (F : Type 0) ⦃fl : Float F⦄ where
  -- The sizes after the uniform downscale, which is made above the token limit only.
  unfoldable pub downscale : ℕ → ℕ → ℕ × ℕ
  downscale w h =
      let scale = fl.sqrt (fl.div (fl.of_nat in_token_limit) (fl.of_nat (total_patches w h))) in
      if ltb in_token_limit (total_patches w h)
      then (fl.trunc (fl.mul (fl.of_nat w) scale), fl.trunc (fl.mul (fl.of_nat h) scale))
      else (w, h)

module _ {F : Type 0} ⦃fl : Float F⦄ where
  -- The plan for the sizes `w` and `h` after the downscale; `none` is the ValueError of the cap.
  unfoldable pub plan_grid : ℕ → ℕ → ℕ → ℕ → Option (ImageResize F)
  unfolding ceil_to_grid
  plan_grid width height w h =
      let dst_w = ceil_to_grid w in
      let dst_h = ceil_to_grid h in
      let n_patches_w = dst_w / patch_size in
      let n_patches_h = dst_h / patch_size in
      if leb max_patches_per_side n_patches_w || leb max_patches_per_side n_patches_h
      then none
      else some (record {
        src_w = width;
        src_h = height;
        dst_w = dst_w;
        dst_h = dst_h;
        n_patches_w = n_patches_w;
        n_patches_h = n_patches_h;
        n_llm_tokens = (n_patches_w * n_patches_h) / (merge_kernel * merge_kernel);
        scale = fl.div (fl.of_nat dst_w) (fl.of_nat width);
      })

  -- `none` is a ValueError.
  unfoldable pub plan_resize : ℕ → ℕ → Option (ImageResize F)
  unfolding plan_grid
  plan_resize width height =
      if width == 0 || height == 0
      then none
      else (let (w, h) = downscale F width height in plan_grid width height w h)

  -- `ImageResize.min_resolvable_object_px_src`
  unfoldable pub min_resolvable_object_px_src : ImageResize F → F
  min_resolvable_object_px_src plan = fl.div (fl.of_nat llm_token_px) plan.scale

pub record Summary (F : Type 0) : Type 0 where
  pub plan : ImageResize F
  pub min_object : F
  pub patch_px : ℕ
  pub token_px : ℕ
  pub token_limit : ℕ
  pub max_tokens : ℕ

module _ {F : Type 0} ⦃fl : Float F⦄ where
  unfoldable pub summarize : ℕ → ℕ → Option (Summary F)
  unfolding min_resolvable_object_px_src
  summarize width height = elim (plan_resize width height) [
    | none ↦ none
    | some plan ↦ some (record {
      plan = plan;
      min_object = fl.round_to (min_resolvable_object_px_src plan) 2;
      patch_px = patch_size;
      token_px = llm_token_px;
      token_limit = in_token_limit;
      max_tokens = max_llm_tokens_per_image;
    })
  ]
