-- ===== src/Inference/Variant/Laws.antt =====
-- The variant mapping loses no geometry and picks one variant.
use locate_anything_setup.Prelude.{
  ℕ, ◌+◌, ◌≡◌, ◌<◌, refl, ◌↔◌, inl, inr, true, false, none, some, List, [], ◌∷◌, length, ltb, arith,
  lt→ltb, Bool-cases, ltb→lt,
}
use locate_anything_setup.Text.{is_empty}
use locate_anything_setup.Prompts.{Task}
use locate_anything_setup.Inference.Variant.{
  Shape, box_shape, point_shape, expected_shape, boxes, points, abstained, model_deviation,
  DeviationMessage, InferenceResult, Geometry, valid_count, dropped, any_geometry_block, valid_kind,
  kept_boxes, kept_points, resolve,
}

is_empty-length : {A : Type 0} (xs : List A) → (is_empty xs ≡ true) ↔ (length xs ≡ 0)
is_empty-length [] = ground arith
is_empty-length (x ∷ xs) = ground arith

module _ {F : Type 0} where
  -- Every block of geometry, of either shape, on the contract or off it.
  abbrev pub total : Geometry F → ℕ
  total g = length g.box_dicts + g.box_off + length g.point_dicts + g.point_off + g.malformed

  any_geometry_block-total : (g : Geometry F) → (any_geometry_block g ≡ false) ↔ (total g ≡ 0)
  unfolding any_geometry_block
  any_geometry_block-total g = ground arith

  valid_count-dropped : (s : Shape) (g : Geometry F) → valid_count s g + dropped s g ≡ total g
  unfolding valid_count dropped
  valid_count-dropped box_shape g = omega arith
  valid_count-dropped point_shape g = omega arith

  pub resolve_valid :
      (t : Task) (g : Geometry F) (blank : InferenceResult F)
      → 0 < valid_count (expected_shape t) g
      → resolve t g blank ≡ record blank {
        kind = valid_kind (expected_shape t);
        box_list = kept_boxes (expected_shape t) g.box_dicts;
        point_list = kept_points (expected_shape t) g.point_dicts;
        deviation_message = none;
        deviations_dropped = dropped (expected_shape t) g;
      }
  unfolding resolve
  resolve_valid t g blank h = rw (lt→ltb _ _ h)

  pub resolve_deviation :
      (t : Task) (g : Geometry F) (blank : InferenceResult F)
      → valid_count (expected_shape t) g ≡ 0
      → any_geometry_block g ≡ true
      → resolve t g blank ≡ record blank {
        kind = model_deviation;
        box_list = [];
        point_list = [];
        deviation_message =
            some
              (record { shape = expected_shape t; task = t; count = dropped (expected_shape t) g });
        deviations_dropped = dropped (expected_shape t) g;
      }
  unfolding resolve
  resolve_deviation t g blank v h = rw v (rw h)

  pub resolve_abstained :
      (t : Task) (g : Geometry F) (blank : InferenceResult F)
      → valid_count (expected_shape t) g ≡ 0
      → any_geometry_block g ≡ false
      → resolve t g blank ≡ record blank {
        kind = abstained;
        box_list = [];
        point_list = [];
        deviation_message = none;
        deviations_dropped = 0;
      }
  unfolding resolve
  resolve_abstained t g blank v h = rw v (rw h)

  -- The three cases, as conditions on the counts.
  pub data Case (t : Task) (g : Geometry F) : Type 0 where
    valid : 0 < valid_count (expected_shape t) g → Case t g
    deviating : valid_count (expected_shape t) g ≡ 0 → any_geometry_block g ≡ true → Case t g
    empty : valid_count (expected_shape t) g ≡ 0 → any_geometry_block g ≡ false → Case t g

  pub Case-of : (t : Task) (g : Geometry F) → Case t g
  Case-of t g = elim (Bool-cases (ltb 0 (valid_count (expected_shape t) g))) [
    | inl h ↦ valid (ltb→lt _ _ h)
    | inr h ↦ (elim (Bool-cases (any_geometry_block g)) [
      | inl k ↦ deviating (ground arith) k
      | inr k ↦ empty (ground arith) k
    ])
  ]

  kept_length :
      (s : Shape) (g : Geometry F)
      → length (kept_boxes s g.box_dicts) + length (kept_points s g.point_dicts) ≡ valid_count s g
  unfolding valid_count
  kept_length box_shape g = omega arith
  kept_length point_shape g = omega arith

  -- In every variant the boxes and points of the result and the number it counts as dropped add up
  -- to all the geometry that was parsed, of either shape, on the contract or off it.
  pub resolve-total :
      (t : Task) (g : Geometry F) (blank : InferenceResult F)
      → length (resolve t g blank).box_list
          + length (resolve t g blank).point_list
          + (resolve t g blank).deviations_dropped
        ≡ total g
  resolve-total t g blank = by_case (Case-of t g)
    where
      by_case :
          Case t g
          → length (resolve t g blank).box_list
              + length (resolve t g blank).point_list
              + (resolve t g blank).deviations_dropped
            ≡ total g
      by_case (valid h) = rw (resolve_valid t g blank h) (
          omega (arith, kept_length (expected_shape t) g, valid_count-dropped (expected_shape t) g))
      by_case (deviating v h) =
          rw (resolve_deviation t g blank v h)
            (omega (arith, valid_count-dropped (expected_shape t) g))
      by_case (empty v h) =
          rw (resolve_abstained t g blank v h) (omega (arith, (any_geometry_block-total g).0 h))

  -- A reply of a variant: geometry of one shape, or none with the reason why.
  pub data WellFormed (r : InferenceResult F) : Type 0 where
    has_boxes :
        r.kind ≡ boxes
        → 0 < length r.box_list
        → r.point_list ≡ []
        → r.deviation_message ≡ none
        → WellFormed r
    has_points :
        r.kind ≡ points
        → 0 < length r.point_list
        → r.box_list ≡ []
        → r.deviation_message ≡ none
        → WellFormed r
    is_abstained :
        r.kind ≡ abstained
        → r.box_list ≡ []
        → r.point_list ≡ []
        → r.deviation_message ≡ none
        → r.deviations_dropped ≡ 0
        → WellFormed r
    is_deviation :
        (m : DeviationMessage)
        → r.kind ≡ model_deviation
        → r.box_list ≡ []
        → r.point_list ≡ []
        → r.deviation_message ≡ some m
        → m.count ≡ r.deviations_dropped
        → 0 < r.deviations_dropped
        → WellFormed r

  resolve-valid-WellFormed :
      (s : Shape) (g : Geometry F) (blank : InferenceResult F) (n : ℕ)
      → 0 < valid_count s g
      → WellFormed (record blank {
        kind = valid_kind s;
        box_list = kept_boxes s g.box_dicts;
        point_list = kept_points s g.point_dicts;
        deviation_message = none;
        deviations_dropped = n;
      })
  unfolding valid_count
  resolve-valid-WellFormed box_shape g blank n h = has_boxes refl h refl refl
  resolve-valid-WellFormed point_shape g blank n h = has_points refl h refl refl

  -- Every result has the form of its variant: boxes or points and never both, no success with an
  -- empty list, nothing dropped in an abstention, and a message with the count dropped in a
  -- deviation.
  pub resolve-WellFormed :
      (t : Task) (g : Geometry F) (blank : InferenceResult F) → WellFormed (resolve t g blank)
  resolve-WellFormed t g blank = by_case (Case-of t g)
    where
      by_case : Case t g → WellFormed (resolve t g blank)
      by_case (valid h) =
          rw (resolve_valid t g blank h)
            (resolve-valid-WellFormed (expected_shape t) g blank (dropped (expected_shape t) g) h)
      by_case (deviating v h) = rw (resolve_deviation t g blank v h) (
          is_deviation _ refl refl refl refl refl
            (ground (arith, any_geometry_block-total g, valid_count-dropped (expected_shape t) g)))
      by_case (empty v h) =
          rw (resolve_abstained t g blank v h) (is_abstained refl refl refl refl refl)
