-- ===== src/Parsing/Bounds.antt =====
-- What the parsers return is in bounds, labelled and in pixels of the image.
use locate_anything_setup.Prelude.{
  ℕ, ◌≤◌, ◌≡◌, refl, false, Option, none, some, List, [], ◌∷◌, map, All, All-append, arith,
  Bool-cases, inl, inr, ◌+◌,
}
use locate_anything_setup.Text.{Text, strip, is_empty}
use locate_anything_setup.Float.{Float, IsMonotone, ◌≼◌}
use locate_anything_setup.Regex.{Match, Corners, Run, box_re, ref_run_re, finditer}
use locate_anything_setup.Parsing.{
  Detection, Point, PointPass, clamp_coord, to_px, make_box, make_point, run_boxes, parse_boxes,
  points_in_run, run_points, bare_points, parse_points, overlaps_any,
}

module _ {F : Type 0} ⦃fl : Float F⦄ where
  -- Corners in order, on the scale of 1000, with a label, and the pixels they are in the image.
  pub record IsBox (w h : ℕ) (d : Detection F) : Type 0 where
    pub x_order : d.bbox_norm.0 ≤ d.bbox_norm.2
    pub y_order : d.bbox_norm.1 ≤ d.bbox_norm.3
    pub x_bound : d.bbox_norm.2 ≤ 1000
    pub y_bound : d.bbox_norm.3 ≤ 1000
    pub labelled : is_empty d.label ≡ false
    pub pixels : d.bbox_px ≡ (
      to_px d.bbox_norm.0 w,
      to_px d.bbox_norm.1 h,
      to_px d.bbox_norm.2 w,
      to_px d.bbox_norm.3 h,
    )

  pub record IsPoint (w h : ℕ) (p : Point F) : Type 0 where
    pub x_bound : p.point_norm.0 ≤ 1000
    pub y_bound : p.point_norm.1 ≤ 1000
    pub labelled : is_empty p.label ≡ false
    pub pixels : p.point_px ≡ (to_px p.point_norm.0 w, to_px p.point_norm.1 h)

  make_box-IsBox :
      (label : Text) (c : Corners) (w h : ℕ)
      → is_empty label ≡ false
      → IsBox w h (make_box label c w h)
  unfolding make_box clamp_coord
  make_box-IsBox label (x1, y1, x2, y2) w h e = record {
    x_order = ground arith;
    y_order = ground arith;
    x_bound = ground arith;
    y_bound = ground arith;
    labelled = e;
    pixels = refl;
  }

  make_point-IsPoint :
      (label : Text) (c : ℕ × ℕ) (w h : ℕ)
      → is_empty label ≡ false
      → IsPoint w h (make_point label c w h)
  unfolding make_point clamp_coord
  make_point-IsPoint label (x, y) w h e = record {
    x_bound = ground arith;
    y_bound = ground arith;
    labelled = e;
    pixels = refl;
  }

module _ (F : Type 0) ⦃fl : Float F⦄ where
  make_boxes-IsBox :
      (label : Text) (w h : ℕ) (ms : List (Match Corners))
      → is_empty label ≡ false
      → All (IsBox {F = F} w h) (map (λ m. make_box label m.groups w h) ms)
  make_boxes-IsBox label w h [] e = tt
  make_boxes-IsBox label w h (m ∷ ms) e =
      (make_box-IsBox label m.groups w h e, make_boxes-IsBox label w h ms e)

  make_points-IsPoint :
      (label : Text) (w h : ℕ) (ms : List (Match (ℕ × ℕ)))
      → is_empty label ≡ false
      → All (IsPoint {F = F} w h) (map (λ m. make_point label m.groups w h) ms)
  make_points-IsPoint label w h [] e = tt
  make_points-IsPoint label w h (m ∷ ms) e =
      (make_point-IsPoint label m.groups w h e, make_points-IsPoint label w h ms e)

  run_boxes-IsBox : (ms : List (Match Run)) (w h : ℕ) → All (IsBox {F = F} w h) (run_boxes ms w h).0
  unfolding run_boxes
  run_boxes-IsBox [] w h = tt
  run_boxes-IsBox (m ∷ ms) w h = elim (Bool-cases (is_empty (strip m.groups.label))) [
    | inl e ↦ rw e (run_boxes-IsBox ms w h)
    | inr e ↦ rw e (
        All-append _ _ _
          (make_boxes-IsBox (strip m.groups.label) w h (finditer box_re m.groups.boxes) e)
          (run_boxes-IsBox ms w h))
  ]

  -- Every box that `parse_boxes` returns has its corners in order and at most 1000, a label that is
  -- not empty, and the pixels that its corners are in the image.
  pub parse_boxes-IsBox :
      (answer : Text) (w h : ℕ) → All (IsBox {F = F} w h) (parse_boxes answer w h).0
  unfolding parse_boxes
  parse_boxes-IsBox answer w h = run_boxes-IsBox (finditer ref_run_re answer) w h

  points_in_run-IsPoint :
      (box_spans : List (ℕ × ℕ)) (label : Text) (offset w h : ℕ) (ms : List (Match (ℕ × ℕ)))
      (p : PointPass F)
      → All (IsPoint {F = F} w h) p.out
      → All (IsPoint {F = F} w h) (points_in_run box_spans label offset w h ms p).out
  unfolding points_in_run
  points_in_run-IsPoint box_spans label offset w h [] p a = a
  points_in_run-IsPoint box_spans label offset w h (m ∷ ms) p a =
      let ih = points_in_run-IsPoint box_spans label offset w h ms p a in
      let here : ℕ × ℕ = (offset + m.start, offset + m.stop) in
      elim (Bool-cases (overlaps_any box_spans here)) [
        | inl e ↦ rw e ih
        | inr e ↦ elim (Bool-cases (is_empty label)) [
          | inl k ↦ rw e (rw k ih)
          | inr k ↦ rw e (rw k (make_point-IsPoint label m.groups w h k, ih))
        ]
      ]

  run_points-IsPoint :
      (box_spans : List (ℕ × ℕ)) (ms : List (Match Run)) (w h : ℕ)
      → All (IsPoint {F = F} w h) (run_points box_spans ms w h).out
  unfolding run_points
  run_points-IsPoint box_spans [] w h = tt
  run_points-IsPoint box_spans (m ∷ ms) w h =
      points_in_run-IsPoint box_spans _ _ w h _ _ (run_points-IsPoint box_spans ms w h)

  bare_points-IsPoint :
      (label : Option Text) (ms : List (Match (ℕ × ℕ))) (w h : ℕ)
      → All (IsPoint {F = F} w h) (bare_points label ms w h).0
  unfolding bare_points
  bare_points-IsPoint none ms w h = tt
  bare_points-IsPoint (some label) ms w h = elim (Bool-cases (is_empty label)) [
    | inl e ↦ rw e tt
    | inr e ↦ rw e (make_points-IsPoint label w h ms e)
  ]

  -- Every point that `parse_points` returns is at most 1000 on both axes, and has a label that is
  -- not empty and the pixels that it is in the image, whatever the phrase queried.
  pub parse_points-IsPoint :
      (answer : Text) (w h : ℕ) (point_label : Option Text)
      → All (IsPoint {F = F} w h) (parse_points answer w h point_label).0
  unfolding parse_points
  parse_points-IsPoint answer w h point_label =
      All-append _ _ _ (run_points-IsPoint _ (finditer ref_run_re answer) w h)
        (bare_points-IsPoint point_label _ w h)

module _ {F : Type 0} ⦃fl : Float F⦄ where
  to_px_mono : IsMonotone F → (c d dim : ℕ) → c ≤ d → to_px {F = F} c dim ≼ to_px d dim
  unfolding to_px
  to_px_mono mono c d dim h =
      mono.round_mono _ _ 2
        (mono.mul_mono _ _ dim (mono.div_mono _ _ 1000 (mono.of_nat_mono c d h)))

  -- Where the float operations are monotone, the pixel corners of a box as `parse_boxes` returns it
  -- are in order on both axes.
  pub IsBox-pixel_order :
      IsMonotone F
      → (w h : ℕ) (d : Detection F) → IsBox w h d
      → (d.bbox_px.0 ≼ d.bbox_px.2) × (d.bbox_px.1 ≼ d.bbox_px.3)
  IsBox-pixel_order mono w h d b = rw b.pixels (
    to_px_mono mono d.bbox_norm.0 d.bbox_norm.2 w b.x_order,
    to_px_mono mono d.bbox_norm.1 d.bbox_norm.3 h b.y_order,
  )
