-- ===== src/Inference/Image/Laws.antt =====
-- The decoder blames the client for client faults only, and the gates make a plan that scales
-- nothing down.
use locate_anything_setup.Prelude.{
  ℕ, ◌*◌, ◌/◌, ◌<◌, ◌≤◌, ◌≡◌, ◌≢◌, refl, ◌⊎◌, ◌↔◌, inl, inr, some, arith,
}
use locate_anything_setup.Float.{Float}
use locate_anything_setup.Outcome.{ok, raise, value_error, not_decoded}
use locate_anything_setup.Pixel.{ImageResize, ceil_to_grid, plan_resize}
use locate_anything_setup.Pixel.Plan.{plan_resize-gated}
use locate_anything_setup.Inference.Image.{
  Bytes, PilError, Raised, returned, raised, Pil, cms_error, other, decoded, open_rgb, decode_image,
  grid_patches, size_gates,
}

-- The gates pass exactly the sizes of at most 25600 patches, with fewer than 512 patches a side
-- after rounding up to the grid.
pub size_gates_iff :
    (w h : ℕ)
    → (size_gates w h ≡ ok tt)
      ↔ (((w / 14) * (h / 14) ≤ 25600) × (grid_patches w < 512) × (grid_patches h < 512))
unfolding size_gates
size_gates_iff w h = ground arith

module _ {F : Type 0} ⦃fl : Float F⦄ where
  -- An image of positive sides that passes the gates of `run` has a plan, for its own sides, and
  -- the plan scales nothing down: its sides are the next multiples of 28.
  pub size_gates-plan_resize :
      (w h : ℕ)
      → 0 < w
      → 0 < h
      → size_gates w h ≡ ok tt
      → (r : ImageResize F) × (plan_resize w h ≡ some r)
        × (r.dst_w ≡ ceil_to_grid w)
        × (r.dst_h ≡ ceil_to_grid h)
        × (r.src_w ≡ w)
        × (r.src_h ≡ h)
  unfolding ceil_to_grid grid_patches
  size_gates-plan_resize w h pw ph e =
      let g = (size_gates_iff w h).0 e in plan_resize-gated w h pw ph g.0 g.1 g.2

decoded-raised :
    (A : Type 0) (e : PilError)
    → (decoded {A = A} (raised e) ≡ raise (value_error not_decoded))
      ↔ ((e ≢ cms_error) × (e ≢ other))
unfolding decoded
decoded-raised A e = ground arith

-- What opening the image raises becomes the ValueError of the client exactly if it is a decode
-- error; an image that is opened is returned.
pub decode_image-cases :
    {Img Profile : Type 0} (pil : Pil Img Profile) (jpeg : Bytes)
    → ((i : Img) × (open_rgb pil jpeg ≡ returned i) × (decode_image pil jpeg ≡ ok i))
      ⊎ ((e : PilError) × (open_rgb pil jpeg ≡ raised e)
          × ((decode_image pil jpeg ≡ raise (value_error not_decoded))
              ↔ ((e ≢ cms_error) × (e ≢ other))))
unfolding decode_image
decode_image-cases {Img} pil jpeg = go (open_rgb pil jpeg) refl
  where
    go :
        (r : Raised Img)
        → open_rgb pil jpeg ≡ r
        → ((i : Img) × (open_rgb pil jpeg ≡ returned i) × (decoded (open_rgb pil jpeg) ≡ ok i))
          ⊎ ((e : PilError) × (open_rgb pil jpeg ≡ raised e)
              × ((decoded (open_rgb pil jpeg) ≡ raise (value_error not_decoded))
                  ↔ ((e ≢ cms_error) × (e ≢ other))))
    go (returned i) h = inl (i, h, rw h)
    go (raised e) h = inr (e, h, rw h (decoded-raised Img e))
