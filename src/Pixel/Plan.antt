-- ===== src/Pixel/Plan.antt =====
-- What the resize plan promises within the server's gates.
use locate_anything_setup.Prelude.{
  ℕ, ◌+◌, ◌*◌, ◌/◌, ◌%◌, ◌≤◌, ◌<◌, ◌≡◌, refl, some, arith, ◌∙◌, subst,
}
use locate_anything_setup.Float.{Float}
use locate_anything_setup.Pixel.{
  ImageResize, ceil_to_grid, plan_grid, downscale, plan_resize, total_patches, in_token_limit,
  patch_size, max_patches_per_side, max_llm_tokens_per_image,
}

-- The next multiple of 28: not below, less than 28 above.
pub ceil_to_grid_bounds :
    (d : ℕ) → (d ≤ ceil_to_grid d) × (ceil_to_grid d < d + 28) × (ceil_to_grid d % 28 ≡ 0)
unfolding ceil_to_grid
ceil_to_grid_bounds d = omega arith

product_le : (a b m n : ℕ) → a ≤ m → b ≤ n → a * b ≤ m * n
product_le a b m n p q = grind arith

-- Two patches a side make one token.
token_count : (x y : ℕ) → x % 28 ≡ 0 → y % 28 ≡ 0 → (x / 14) * (y / 14) / 4 ≡ (x / 28) * (y / 28)
token_count x y p q =
    let a : x / 14 ≡ 2 * (x / 28) = omega arith in
    let b : y / 14 ≡ 2 * (y / 28) = omega arith in rw (a, b) (omega arith)

pub total_patches_max_dim : (w h : ℕ) → w ≤ 2240 → h ≤ 2240 → total_patches w h ≤ in_token_limit
total_patches_max_dim w h hw hh = product_le (w / 14) (h / 14) 160 160 (omega arith) (omega arith)

module _ (F : Type 0) ⦃fl : Float F⦄ where
  -- Within the token limit the sizes are not scaled down.
  downscale-within : (w h : ℕ) → total_patches w h ≤ in_token_limit → downscale F w h ≡ (w, h)
  unfolding downscale
  downscale-within w h fits = ground arith

module _ {F : Type 0} ⦃fl : Float F⦄ where
  plan_resize-plan_grid :
      (width height : ℕ) (r : ImageResize F)
      → plan_resize width height ≡ some r
      → plan_grid width height (downscale F width height).0 (downscale F width height).1 ≡ some r
  unfolding plan_resize
  plan_resize-plan_grid width height r e = ground arith

  plan_grid-eq-some :
      (width height w h : ℕ) (r : ImageResize F)
      → plan_grid width height w h ≡ some r
      → (r.src_w ≡ width)
        × (r.src_h ≡ height)
        × (r.dst_w ≡ ceil_to_grid w)
        × (r.dst_h ≡ ceil_to_grid h)
        × (r.n_patches_w ≡ ceil_to_grid w / 14)
        × (r.n_patches_h ≡ ceil_to_grid h / 14)
        × (r.n_llm_tokens ≡ (ceil_to_grid w / 14) * (ceil_to_grid h / 14) / 4)
        × (ceil_to_grid w / 14 < 512)
        × (ceil_to_grid h / 14 < 512)
  unfolding plan_grid
  plan_grid-eq-some width height w h r e = ground arith

  tokens_of_grid :
      (x y : ℕ) (r : ImageResize F)
      → x % 28 ≡ 0
      → y % 28 ≡ 0
      → r.dst_w ≡ x
      → r.dst_h ≡ y
      → r.n_patches_w ≡ x / 14
      → r.n_patches_h ≡ y / 14
      → r.n_llm_tokens ≡ (x / 14) * (y / 14) / 4
      → x / 14 < 512
      → y / 14 < 512
      → (r.dst_w % 28 ≡ 0)
        × (r.dst_h % 28 ≡ 0)
        × (r.n_patches_w < 512)
        × (r.n_patches_h < 512)
        × (r.n_patches_w * 14 ≡ r.dst_w)
        × (r.n_patches_h * 14 ≡ r.dst_h)
        × (r.n_llm_tokens ≡ (r.dst_w / 28) * (r.dst_h / 28))
  tokens_of_grid x y r mx my dw dh pw ph t cw ch = (
    omega arith,
    omega arith,
    omega arith,
    omega arith,
    omega arith,
    omega arith,
    t ∙ token_count x y mx my ∙ rw (dw, dh),
  )

  -- A plan that is made at all has sides that are multiples of 28, fewer than 512 patches a side,
  -- patches that fill the sides, and one token for each square of 28 pixels.
  pub plan_resize-tokens :
      (width height : ℕ) (r : ImageResize F)
      → plan_resize width height ≡ some r
      → (r.dst_w % 28 ≡ 0)
        × (r.dst_h % 28 ≡ 0)
        × (r.n_patches_w < 512)
        × (r.n_patches_h < 512)
        × (r.n_patches_w * 14 ≡ r.dst_w)
        × (r.n_patches_h * 14 ≡ r.dst_h)
        × (r.n_llm_tokens ≡ (r.dst_w / 28) * (r.dst_h / 28))
  plan_resize-tokens width height r e =
      let w = (downscale F width height).0 in
      let h = (downscale F width height).1 in
      let g = plan_grid-eq-some width height w h r (plan_resize-plan_grid width height r e) in
      tokens_of_grid (ceil_to_grid w) (ceil_to_grid h) r (ceil_to_grid_bounds w).2
        (ceil_to_grid_bounds h).2 g.2 g.3 g.4 g.5 g.6 g.7 g.8

  -- An image of positive sides, within the token limit and below the cap of a side, has a plan, for
  -- its own sides, with the next multiples of 28.
  pub plan_resize-gated :
      (w h : ℕ)
      → 0 < w
      → 0 < h
      → total_patches w h ≤ in_token_limit
      → ceil_to_grid w / patch_size < max_patches_per_side
      → ceil_to_grid h / patch_size < max_patches_per_side
      → (r : ImageResize F) × (plan_resize w h ≡ some r)
        × (r.dst_w ≡ ceil_to_grid w)
        × (r.dst_h ≡ ceil_to_grid h)
        × (r.src_w ≡ w)
        × (r.src_h ≡ h)
  unfolding plan_grid plan_resize downscale
  plan_resize-gated w h pw ph fits cw ch = (
    record {
      src_w = w;
      src_h = h;
      dst_w = ceil_to_grid w;
      dst_h = ceil_to_grid h;
      n_patches_w = ceil_to_grid w / 14;
      n_patches_h = ceil_to_grid h / 14;
      n_llm_tokens = (ceil_to_grid w / 14) * (ceil_to_grid h / 14) / 4;
      scale = fl.div (fl.of_nat (ceil_to_grid w)) (fl.of_nat w);
    },
    ground (arith, downscale-within F w h fits),
    refl,
    refl,
    refl,
    refl,
  )

  plan_resize_sizes :
      (w h : ℕ) (r : ImageResize F)
      → plan_resize w h ≡ some r
      → total_patches w h ≤ in_token_limit
      → (r.dst_w ≡ ceil_to_grid w) × (r.dst_h ≡ ceil_to_grid h)
  plan_resize_sizes w h r e fits =
      let g : plan_grid w h w h ≡ some r =
        subst (λ (p : ℕ × ℕ). plan_grid w h p.0 p.1 ≡ some r) (downscale-within F w h fits)
          (plan_resize-plan_grid w h r e) in
      let k = plan_grid-eq-some w h w h r g in (k.2, k.3)

  -- A plan for an image of at most 2240 pixels a side has at most 6400 tokens.
  pub plan_resize-max_dim :
      (w h : ℕ) (r : ImageResize F)
      → plan_resize w h ≡ some r
      → w ≤ 2240
      → h ≤ 2240
      → r.n_llm_tokens ≤ max_llm_tokens_per_image
  plan_resize-max_dim w h r e hw hh =
      let fits : total_patches w h ≤ in_token_limit = total_patches_max_dim w h hw hh in
      let (dw, dh) = plan_resize_sizes w h r e fits in
      rw (plan_resize-tokens w h r e).6 (
        product_le (r.dst_w / 28) (r.dst_h / 28) 80 80 (omega (arith, ceil_to_grid_bounds w))
          (omega (arith, ceil_to_grid_bounds h)))

  -- The plan for an image of 2241 to 2253 pixels a side has more than 6400 tokens, though the image
  -- is within the limit of 25600 patches.
  pub plan_resize-over :
      (w h : ℕ) (r : ImageResize F)
      → 2240 < w
      → w < 2254
      → 2240 < h
      → h < 2254
      → plan_resize w h ≡ some r
      → (total_patches w h ≤ in_token_limit) × (max_llm_tokens_per_image < r.n_llm_tokens)
  plan_resize-over w h r a b c d e =
      let p : w / 14 ≡ 160 = omega arith in
      let q : h / 14 ≡ 160 = omega arith in
      let fits : total_patches w h ≤ in_token_limit = rw (p, q) (omega arith) in
      let (dw, dh) = plan_resize_sizes w h r e fits in
      let x : r.dst_w / 28 ≡ 81 = omega (arith, ceil_to_grid_bounds w) in
      let y : r.dst_h / 28 ≡ 81 = omega (arith, ceil_to_grid_bounds h) in
      (fits, rw ((plan_resize-tokens w h r e).6, x, y) (omega arith))
