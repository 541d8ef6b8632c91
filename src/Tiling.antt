-- ===== src/Tiling.antt =====
-- worker/tiling.py: the geometric helpers of external tiling. A pixel is a number that is not
-- negative, so `max(0, a - b)` is the subtraction that stops at 0.
pub mod Cover
pub mod Sorting
pub mod Suppress
pub mod Again
use locate_anything_setup.Prelude.{
  ℕ, zero, suc, ◌+◌, ◌-◌, min, Bool, true, false, not, ◌&&◌, ◌||◌, Option, none, some, List, [],
  ◌∷◌, ◌++◌, ltb, any, if◌then◌else◌,
}
use locate_anything_setup.Text.{Text, equal}
use locate_anything_setup.Float.{Float}
use locate_anything_setup.Outcome.{Outcome, ok, raise}

pub record Tile : Type 0 where
  pub row : ℕ
  pub col : ℕ
  pub x0 : ℕ
  pub y0 : ℕ
  pub x1 : ℕ
  pub y1 : ℕ

-- Python's `range(n)` mapped by a function.
unfoldable pub for_range : {A : Type 0} → ℕ → ℕ → (ℕ → A) → List A
for_range zero from f = []
for_range (suc n) from f = f from ∷ for_range n (from + 1) f

unfoldable pub concat : {A : Type 0} → List (List A) → List A
concat [] = []
concat (xs ∷ xss) = xs ++ concat xss

pub data GridError : Type 0 where
  bad_rows_or_cols bad_overlap : GridError

pub data GridResult : Type 0 where
  tiles : List Tile → GridResult
  refused : GridError → GridResult

module _ {F : Type 0} ⦃fl : Float F⦄ where
  -- `int(round(i * base))`
  unfoldable pub edge : F → ℕ → ℕ
  edge base i = fl.round (fl.mul (fl.of_nat i) base)

  unfoldable pub tile_at : (width height : ℕ) (base_w base_h : F) (pad_x pad_y row col : ℕ) → Tile
  unfolding edge
  tile_at width height base_w base_h pad_x pad_y row col = record {
    row = row;
    col = col;
    x0 = edge base_w col - pad_x;
    y0 = edge base_h row - pad_y;
    x1 = min width (edge base_w (col + 1) + pad_x);
    y1 = min height (edge base_h (row + 1) + pad_y);
  }

  -- The two loops.
  unfoldable pub all_tiles :
      (image_width image_height rows cols : ℕ) (overlap_ratio : F) → List Tile
  unfolding for_range concat tile_at
  all_tiles image_width image_height rows cols overlap_ratio =
      let base_w = fl.div (fl.of_nat image_width) (fl.of_nat cols) in
      let base_h = fl.div (fl.of_nat image_height) (fl.of_nat rows) in
      let pad_x = fl.round (fl.mul base_w overlap_ratio) in
      let pad_y = fl.round (fl.mul base_h overlap_ratio) in
      concat (
        for_range rows 0 (λ r.
          for_range cols 0 (λ c. tile_at image_width image_height base_w base_h pad_x pad_y r c)))

  -- `half` is the literal 0.5.
  unfoldable pub grid :
      (image_width image_height rows cols : ℕ) (overlap_ratio half : F) → GridResult
  unfolding all_tiles
  grid image_width image_height rows cols overlap_ratio half =
      if ltb rows 1 || ltb cols 1
      then refused bad_rows_or_cols
      else if not (fl.le (fl.of_nat 0) overlap_ratio && fl.lt overlap_ratio half)
      then refused bad_overlap
      else tiles (all_tiles image_width image_height rows cols overlap_ratio)

  unfoldable pub remap_box_to_global : F × F × F × F → Tile → F × F × F × F
  remap_box_to_global (x1, y1, x2, y2) tile = (
    fl.add (fl.of_nat tile.x0) x1,
    fl.add (fl.of_nat tile.y0) y1,
    fl.add (fl.of_nat tile.x0) x2,
    fl.add (fl.of_nat tile.y0) y2,
  )

  -- Python's `max` and `min` keep the first argument of equals.
  abbrev pub max_of : F → F → F
  max_of a b = if fl.lt a b then b else a

  abbrev pub min_of : F → F → F
  min_of a b = if fl.lt b a then b else a

  -- `max(0.0, b - a)`
  abbrev pub extent : F → F → F
  extent a b = max_of (fl.of_nat 0) (fl.sub b a)

  unfoldable pub iou : F × F × F × F → F × F × F × F → F
  iou (ax1, ay1, ax2, ay2) (bx1, by1, bx2, by2) =
      let iw = extent (max_of ax1 bx1) (min_of ax2 bx2) in
      let ih = extent (max_of ay1 by1) (min_of ay2 by2) in
      let inter = fl.mul iw ih in
      let a_area = fl.mul (extent ax1 ax2) (extent ay1 ay2) in
      let b_area = fl.mul (extent bx1 bx2) (extent by1 by2) in
      let union = fl.sub (fl.add a_area b_area) inter in
      if fl.le inter (fl.of_nat 0)
      then fl.of_nat 0
      else if fl.le union (fl.of_nat 0)
      then fl.of_nat 0
      else fl.div inter union

-- What `nms` reads of the dict of a detection; the label may be missing.
pub record Box (F : Type 0) : Type 0 where
  pub label : Option Text
  pub bbox_px : F × F × F × F

-- `b.get("label") != k.get("label")`
unfoldable pub labels_differ : Option Text → Option Text → Bool
unfolding equal
labels_differ (some a) (some b) = not (equal a b)
labels_differ none none = false
labels_differ _ _ = true

module _ {F : Type 0} ⦃fl : Float F⦄ where
  abbrev pub area_of : F × F × F × F → F
  area_of (x1, y1, x2, y2) = fl.mul (extent x1 x2) (extent y1 y2)

  unfoldable pub area : Box F → F
  area b = area_of b.bbox_px

  -- `sorted(boxes, key=area, reverse=True)` is stable: of equals the earlier one stays in front.
  unfoldable pub insert : Box F → List (Box F) → List (Box F)
  insert b [] = b ∷ []
  insert b (k ∷ ks) = elim (fl.le (area k) (area b)) [
    | true ↦ b ∷ (k ∷ ks)
    | false ↦ k ∷ insert b ks
  ]

  unfoldable pub sorted : List (Box F) → List (Box F)
  unfolding insert
  sorted [] = []
  sorted (b ∷ bs) = insert b (sorted bs)

  -- The test of the inner loop: `k` is kept and makes `b` a duplicate.
  unfoldable pub is_dup : Bool → F → Box F → Box F → Bool
  is_dup label_aware iou_threshold b k =
      if label_aware && labels_differ b.label k.label
      then false
      else fl.le iou_threshold (iou b.bbox_px k.bbox_px)

  -- The outer loop, with the boxes kept so far.
  unfoldable pub suppress : Bool → F → List (Box F) → List (Box F) → List (Box F)
  suppress label_aware iou_threshold keep [] = keep
  suppress label_aware iou_threshold keep (b ∷ bs) =
      suppress label_aware iou_threshold
        (if any (is_dup label_aware iou_threshold b) keep then keep else keep ++ b ∷ []) bs

  unfoldable pub nms : List (Box F) → F → Bool → List (Box F)
  unfolding sorted suppress
  nms boxes iou_threshold label_aware = suppress label_aware iou_threshold [] (sorted boxes)
