-- ===== src/Parsing.antt =====
-- worker/parsing.py: from the model's answer to labelled boxes and points, and the counts of what
-- is off the contract. The 4300 digits at which CPython's `int` gives up are not modelled.
pub mod Bounds
pub mod Conserve
pub mod Accounts
use locate_anything_setup.Prelude.{
  ℕ, suc, ◌+◌, min, max, Bool, not, ◌&&◌, ◌||◌, Option, none, some, List, [], ◌∷◌, ◌++◌, map, ltb,
  if◌then◌else◌, length, any, filter_if,
}
use locate_anything_setup.Text.{Text, strip, is_empty}
use locate_anything_setup.Float.{Float}
use locate_anything_setup.Regex.{
  Match, Corners, Run, box_re, point_re, none_re, any_box_re, ref_run_re, finditer, fullmatch,
  search_for,
}

pub record Detection (F : Type 0) : Type 0 where
  pub label : Text
  pub bbox_norm : ℕ × ℕ × ℕ × ℕ
  pub bbox_px : F × F × F × F

pub record Point (F : Type 0) : Type 0 where
  pub label : Text
  pub point_norm : ℕ × ℕ
  pub point_px : F × F

-- `_clamp_coord`; what `\d+` captures is not negative.
unfoldable pub clamp_coord : ℕ → ℕ
clamp_coord c = if ltb 1000 c then 1000 else c

-- `m.span()`
abbrev pub span_of : {A : Type 0} → Match A → ℕ × ℕ
span_of m = (m.start, m.stop)

-- `s < ie and is_ < e`
abbrev pub overlaps : ℕ × ℕ → ℕ × ℕ → Bool
overlaps (s, e) (i, j) = ltb s j && ltb i e

-- `any(s < ie and is_ < e for (is_, ie) in spans)`
abbrev pub overlaps_any : List (ℕ × ℕ) → ℕ × ℕ → Bool
overlaps_any spans x = any (overlaps x) spans

module _ {F : Type 0} ⦃fl : Float F⦄ where
  -- `round(c / 1000.0 * dim, 2)`
  unfoldable pub to_px : ℕ → ℕ → F
  to_px c dim = fl.round_to (fl.mul (fl.div (fl.of_nat c) (fl.of_nat 1000)) (fl.of_nat dim)) 2

  -- `_make_box`
  unfoldable pub make_box : Text → Corners → ℕ → ℕ → Detection F
  unfolding clamp_coord
  make_box label (x1, y1, x2, y2) w h =
      let x_lo = min (clamp_coord x1) (clamp_coord x2) in
      let x_hi = max (clamp_coord x1) (clamp_coord x2) in
      let y_lo = min (clamp_coord y1) (clamp_coord y2) in
      let y_hi = max (clamp_coord y1) (clamp_coord y2) in
      record {
        label = label;
        bbox_norm = (x_lo, y_lo, x_hi, y_hi);
        bbox_px = (to_px x_lo w, to_px y_lo h, to_px x_hi w, to_px y_hi h);
      }

  -- `_make_point`
  unfoldable pub make_point : Text → ℕ × ℕ → ℕ → ℕ → Point F
  unfolding clamp_coord
  make_point label (x, y) w h =
      let xc = clamp_coord x in
      let yc = clamp_coord y in
      record { label = label; point_norm = (xc, yc); point_px = (to_px xc w, to_px yc h) }

  -- Pass 1 of `parse_boxes`: one detection for each box of a labelled run; the boxes of a run with
  -- an empty label are counted.
  unfoldable pub run_boxes : List (Match Run) → ℕ → ℕ → List (Detection F) × ℕ
  run_boxes [] w h = ([], 0)
  run_boxes (m ∷ ms) w h =
      let (out, off_contract) = run_boxes ms w h in
      let boxes_in_run = finditer box_re m.groups.boxes in
      let label = strip m.groups.label in
      if is_empty label
      then (out, length boxes_in_run + off_contract)
      else (map (λ bm. make_box label bm.groups w h) boxes_in_run ++ out, off_contract)

  -- Pass 2 counts the boxes that overlap no run.
  unfoldable pub parse_boxes : Text → ℕ → ℕ → List (Detection F) × ℕ
  unfolding run_boxes
  parse_boxes answer w h =
      let runs = finditer ref_run_re answer in
      let (out, off_contract) = run_boxes runs w h in
      let orphans =
        filter_if (λ m. not (overlaps_any (map span_of runs) (span_of m)))
          (finditer box_re answer) in
      (out, off_contract + length orphans)

-- What pass 1 of `parse_points` has so far.
pub record PointPass (F : Type 0) : Type 0 where
  pub out : List (Point F)
  pub off_contract : ℕ
  pub consumed : List (ℕ × ℕ)

module _ {F : Type 0} ⦃fl : Float F⦄ where
  -- The inner loop: the points of one run, whose boxes start at `offset` of the answer.
  unfoldable pub points_in_run :
      (box_spans : List (ℕ × ℕ)) (label : Text) (offset w h : ℕ)
      → List (Match (ℕ × ℕ))
      → PointPass F
      → PointPass F
  points_in_run box_spans label offset w h [] p = p
  points_in_run box_spans label offset w h (m ∷ ms) p =
      let q = points_in_run box_spans label offset w h ms p in
      let here : ℕ × ℕ = (offset + m.start, offset + m.stop) in
      if overlaps_any box_spans here
      then q
      else if is_empty label
      then record q { off_contract = suc q.off_contract; consumed = here ∷ q.consumed }
      else record q { out = make_point label m.groups w h ∷ q.out; consumed = here ∷ q.consumed }

  -- Pass 1 of `parse_points`.
  unfoldable pub run_points : List (ℕ × ℕ) → List (Match Run) → ℕ → ℕ → PointPass F
  unfolding points_in_run
  run_points box_spans [] w h = record { out = []; off_contract = 0; consumed = [] }
  run_points box_spans (m ∷ ms) w h =
      points_in_run box_spans (strip m.groups.label) (m.start + m.groups.offset) w h
        (finditer point_re m.groups.boxes) (run_points box_spans ms w h)

  -- Pass 2: the bare points take the queried phrase, or are counted where there is none.
  unfoldable pub bare_points : Option Text → List (Match (ℕ × ℕ)) → ℕ → ℕ → List (Point F) × ℕ
  bare_points none ms w h = ([], length ms)
  bare_points (some label) ms w h =
      if is_empty label then ([], length ms) else (map (λ m. make_point label m.groups w h) ms, 0)

  unfoldable pub parse_points : Text → ℕ → ℕ → Option Text → List (Point F) × ℕ
  unfolding run_points bare_points
  parse_points answer w h point_label =
      let box_spans = map span_of (finditer box_re answer) in
      let pass1 = run_points box_spans (finditer ref_run_re answer) w h in
      let bare =
        filter_if
          (λ m. not (overlaps_any box_spans (span_of m) || overlaps_any pass1.consumed (span_of m)))
          (finditer point_re answer) in
      let (out, off_contract) = bare_points point_label bare w h in
      (pass1.out ++ out, pass1.off_contract + off_contract)

-- A block that is no box, no point and no abstention.
unfoldable pub is_malformed : Text → Bool
is_malformed b = not (fullmatch box_re b || fullmatch point_re b || fullmatch none_re b)

unfoldable pub count_malformed_geometry : Text → ℕ
unfolding is_malformed
count_malformed_geometry answer =
    length (filter_if (λ m. is_malformed m.groups) (finditer any_box_re answer))

unfoldable pub has_abstention : Text → Bool
has_abstention answer = search_for none_re answer
