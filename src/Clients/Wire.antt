-- ===== src/Clients/Wire.antt =====
-- The JSON object of a reply as a client reads it, and the object that worker/la_worker.py writes for
-- a success. The Rust edge passes it on without the key `ok`.
use locate_anything_setup.Prelude.{ℕ, Bool, Option, none, some, List, map}
use locate_anything_setup.Text.{Text, codes}
use locate_anything_setup.Parsing.{Detection, Point}
use locate_anything_setup.Inference.Variant.{Kind, boxes, points, abstained, model_deviation}
use locate_anything_setup.Worker.Reply.{Body}

-- `obj.get(key)`; a value of null is as good as absent.
pub data Scalar (F : Type 0) : Type 0 where
  absent : Scalar F
  text : Text → Scalar F
  integer : ℕ → Scalar F
  real : F → Scalar F
  boolean : Bool → Scalar F
  array dictionary : Scalar F

-- A key of an item: missing, no list, or a list of some length.
pub data Pixels : Type 0 where
  missing unlisted : Pixels
  sized : ℕ → Pixels

-- An item of a list of geometry: no object, or one with a label and its two lists of pixels.
pub data Item (F : Type 0) : Type 0 where
  no_object : Item F
  object : (label : Scalar F) (bbox_px point_px : Pixels) → Item F

pub data ListField (F : Type 0) : Type 0 where
  no_key no_list : ListField F
  items : List (Item F) → ListField F

-- The keys that a client reads. A `type` or a `frame_id` that is no text is `none`.
pub record Wire (F : Type 0) : Type 0 where
  pub type_tag : Option Text
  pub frame_id : Option Text
  pub raw_text : Scalar F
  pub latency_ms : Scalar F
  pub model_output_truncated : Scalar F
  pub deviations_dropped : Scalar F
  pub boxes_field : ListField F
  pub points_field : ListField F

-- What a `recv` comes to: an object, something that is none, a close, or the timeout.
pub data Arrival (F : Type 0) : Type 0 where
  message : Wire F → Arrival F
  garbled ws_closed late : Arrival F

abbrev pub kind_name : Kind → Text
kind_name boxes = codes "boxes"
kind_name points = codes "points"
kind_name abstained = codes "abstained"
kind_name model_deviation = codes "model_deviation"

module _ {F : Type 0} where
  -- `bbox_px` has four entries, and `point_px` two.
  abbrev pub box_item : Detection F → Item F
  box_item d = object (text d.label) (sized 4) missing

  abbrev pub point_item : Point F → Item F
  point_item p = object (text p.label) missing (sized 2)

  unfoldable pub list_field : {A : Type 0} → (A → Item F) → Option (List A) → ListField F
  list_field item none = no_key
  list_field item (some xs) = items (map item xs)

  unfoldable pub wire_of : Body F → Wire F
  unfolding list_field
  wire_of b = record {
    type_tag = some (kind_name b.kind);
    frame_id = some b.frame_id;
    raw_text = text b.raw_text;
    latency_ms = real b.latency_ms;
    model_output_truncated = boolean b.model_output_truncated;
    deviations_dropped = integer b.deviations_dropped;
    boxes_field = list_field box_item b.box_list;
    points_field = list_field point_item b.point_list;
  }
