-- ===== src/Clients/Smoke.antt =====
-- scripts/lib/smoke_ws_client.py: one frame, one reply, and the exit code; 0 stands for a run that
-- falls off its end, and 1 for an exception that nothing catches.
pub mod Accepts
use locate_anything_setup.Prelude.{
  ℕ, zero, suc, Bool, true, false, not, ◌&&◌, ◌||◌, Option, none, some, List, [], ◌∷◌, map, any,
  ◌==◌, if◌then◌else◌,
}
use locate_anything_setup.Text.{Text, codes, equal, starts_with}
use locate_anything_setup.Clients.Request.{Args, Built, built, usage, build_request}
use locate_anything_setup.Clients.Wire.{
  Scalar, absent, text, integer, real, boolean, array, dictionary, Pixels, missing, unlisted, sized,
  Item, no_object, object, ListField, no_key, no_list, items, Wire, Arrival, message, garbled,
  ws_closed, late,
}

-- SUCCESS_TYPES
abbrev pub success_types : List Text
success_types = codes "boxes" ∷ codes "points" ∷ codes "abstained" ∷ []

-- `v == want`, for a text.
unfoldable pub is_tag : Option Text → Text → Bool
unfolding equal
is_tag none want = false
is_tag (some t) want = equal t want

unfoldable pub is_success : Option Text → Bool
unfolding is_tag
is_success tag = any (is_tag tag) success_types

-- `if bad: sys.exit(code)`, one after the other.
abbrev pub fail_if : Bool → ℕ → ℕ
fail_if bad code = if bad then code else 0

unfoldable pub first_exit : List ℕ → ℕ
first_exit [] = 0
first_exit (zero ∷ codes_) = first_exit codes_
first_exit (suc n ∷ codes_) = suc n

-- `isinstance(v, list) and len(v) == n`
abbrev pub is_list_of : ℕ → Pixels → Bool
is_list_of n (sized m) = m == n
is_list_of n _ = false

-- `args.expect_type and rtype != args.expect_type`
unfoldable pub is_unexpected : Option Text → Option Text → Bool
unfolding is_tag
is_unexpected none tag = false
is_unexpected (some want) tag = not (is_tag tag want)

module _ {F : Type 0} where
  -- `isinstance(v, str)`
  abbrev pub is_str : Scalar F → Bool
  is_str (text t) = true
  is_str _ = false

  -- `isinstance(v, (int, float))`; a `bool` is an `int`.
  abbrev pub is_number : Scalar F → Bool
  is_number (integer n) = true
  is_number (real x) = true
  is_number (boolean b) = true
  is_number _ = false

  abbrev pub is_bool : Scalar F → Bool
  is_bool (boolean b) = true
  is_bool _ = false

  -- `isinstance(v, int) and not isinstance(v, bool)`
  abbrev pub is_int : Scalar F → Bool
  is_int (integer n) = true
  is_int _ = false

  unfoldable pub box_exit : Item F → ℕ
  box_exit no_object = 1
  box_exit (object label bbox_px point_px) = if is_str label && is_list_of 4 bbox_px then 0 else 7

  unfoldable pub point_exit : Item F → ℕ
  point_exit no_object = 1
  point_exit (object label bbox_px point_px) =
      if is_str label && is_list_of 2 point_px then 0 else 7

  unfoldable pub list_exit : (Item F → ℕ) → ListField F → ℕ
  unfolding first_exit
  list_exit item_exit (items xs) = first_exit (map item_exit xs)
  list_exit item_exit _ = 7

  -- The list that matches the variant.
  unfoldable pub geometry_exit : Wire F → ℕ
  unfolding list_exit is_tag
  geometry_exit w =
      if is_tag w.type_tag (codes "boxes")
      then list_exit box_exit w.boxes_field
      else if is_tag w.type_tag (codes "points")
      then list_exit point_exit w.points_field
      else 0

  unfoldable pub reply_exit : Option Text → Wire F → ℕ
  unfolding first_exit is_success is_unexpected
  reply_exit expect_type w = first_exit (
      fail_if (not (is_tag w.frame_id (codes "smoke-001"))) 5
      ∷ fail_if (is_tag w.type_tag (codes "error")) 4
      ∷ fail_if (not (is_success w.type_tag)) 5
      ∷ fail_if (not (is_str w.raw_text)) 8
      ∷ fail_if (not (is_number w.latency_ms)) 9
      ∷ fail_if (not (is_bool w.model_output_truncated)) 12
      ∷ fail_if (not (is_int w.deviations_dropped)) 11
      ∷ geometry_exit w
      ∷ fail_if (is_unexpected expect_type w.type_tag) 15
      ∷ [])

  -- The reply to the frame that was sent.
  unfoldable pub await_exit : Option Text → Arrival F → ℕ
  await_exit expect_type (message w) = reply_exit expect_type w
  await_exit expect_type garbled = 1
  await_exit expect_type ws_closed = 10
  await_exit expect_type late = 1

  -- `run`, on a connection that opens; the connection and the sending raise nothing.
  unfoldable pub smoke : Text → Args → Option Text → Arrival F → ℕ
  unfolding starts_with
  smoke jpeg args expect_type arrival =
      if not (starts_with (0xff ∷ 0xd8 ∷ 0xff ∷ []) jpeg)
      then 2
      else elim (build_request args) [ usage u ↦ 2 | built r ↦ await_exit expect_type arrival ]
