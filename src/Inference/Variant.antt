-- ===== src/Inference/Variant.antt =====
-- worker/inference.py, the end of `run`: from the parsed geometry to one variant of the reply.
pub mod Keeps
pub mod Laws
use locate_anything_setup.Prelude.{
  ℕ, ◌+◌, Bool, true, false, not, ◌||◌, Option, none, some, List, [], ◌∷◌, length, ltb, ◌==◌,
  if◌then◌else◌,
}
use locate_anything_setup.Text.{Text, codes, is_empty, ends_with}
use locate_anything_setup.Float.{Float}
use locate_anything_setup.Pixel.{ImageResize}
use locate_anything_setup.Parsing.{Detection, Point}
use locate_anything_setup.Prompts.{
  Task, detection, phrase_single, phrase_multi, text_grounding, scene_text, gui_box, point,
}

pub data Shape : Type 0 where
  box_shape point_shape : Shape

-- EXPECTED_SHAPE
unfoldable pub expected_shape : Task → Shape
expected_shape point = point_shape
expected_shape _ = box_shape

pub data Kind : Type 0 where
  boxes points abstained model_deviation : Kind

-- What the message of a deviation names.
pub record DeviationMessage : Type 0 where
  pub shape : Shape
  pub task : Task
  pub count : ℕ

-- The dict `resize_plan` of a reply.
pub record PlanReport (F : Type 0) : Type 0 where
  pub dst_w : ℕ
  pub dst_h : ℕ
  pub n_llm_tokens : ℕ
  pub scale : F

pub record InferenceResult (F : Type 0) : Type 0 where
  pub kind : Kind
  pub box_list : List (Detection F)
  pub point_list : List (Point F)
  pub deviation_message : Option DeviationMessage
  pub raw_answer : Text
  pub deviations_dropped : ℕ
  pub model_output_truncated : Bool
  pub latency_ms : F
  pub image_size : ℕ × ℕ
  pub resize_plan : PlanReport F

-- What the parsers return for one answer.
pub record Geometry (F : Type 0) : Type 0 where
  pub box_dicts : List (Detection F)
  pub box_off : ℕ
  pub point_dicts : List (Point F)
  pub point_off : ℕ
  pub malformed : ℕ

-- `not answer.endswith("<|im_end|>")`
unfoldable pub is_truncated : Text → Bool
unfolding ends_with
is_truncated answer = not (ends_with (codes "<|im_end|>") answer)

abbrev pub valid_kind : Shape → Kind
valid_kind point_shape = points
valid_kind box_shape = boxes

module _ {F : Type 0} ⦃fl : Float F⦄ where
  unfoldable pub report : ImageResize F → PlanReport F
  report plan = record {
    dst_w = plan.dst_w;
    dst_h = plan.dst_h;
    n_llm_tokens = plan.n_llm_tokens;
    scale = fl.round_to plan.scale 4;
  }

module _ {F : Type 0} where
  unfoldable pub valid_count : Shape → Geometry F → ℕ
  valid_count point_shape g = length g.point_dicts
  valid_count box_shape g = length g.box_dicts

  unfoldable pub dropped : Shape → Geometry F → ℕ
  dropped point_shape g = length g.box_dicts + g.box_off + g.point_off + g.malformed
  dropped box_shape g = length g.point_dicts + g.point_off + g.box_off + g.malformed

  -- `bool(box_dicts or point_dicts or box_off or point_off or malformed)`
  unfoldable pub any_geometry_block : Geometry F → Bool
  any_geometry_block g =
      not (is_empty g.box_dicts)
      || not (is_empty g.point_dicts)
      || ltb 0 g.box_off
      || ltb 0 g.point_off
      || ltb 0 g.malformed

  -- `box_dicts if valid_kind == KIND_BOXES else []`, and the same for points.
  abbrev pub kept_boxes : Shape → List (Detection F) → List (Detection F)
  kept_boxes box_shape xs = xs
  kept_boxes point_shape xs = []

  abbrev pub kept_points : Shape → List (Point F) → List (Point F)
  kept_points point_shape xs = xs
  kept_points box_shape xs = []

  -- The variant of a reply and what it carries. `blank` holds what every variant carries: the
  -- answer, whether it is cut off, the latency, the size and the plan.
  unfoldable pub resolve : Task → Geometry F → InferenceResult F → InferenceResult F
  unfolding expected_shape valid_count dropped any_geometry_block
  resolve task g blank =
      let expected = expected_shape task in
      if ltb 0 (valid_count expected g)
      then record blank {
        kind = valid_kind expected;
        box_list = kept_boxes expected g.box_dicts;
        point_list = kept_points expected g.point_dicts;
        deviation_message = none;
        deviations_dropped = dropped expected g;
      }
      else if any_geometry_block g
      then record blank {
        kind = model_deviation;
        box_list = [];
        point_list = [];
        deviation_message =
            some (record { shape = expected; task = task; count = dropped expected g });
        deviations_dropped = dropped expected g;
      }
      else record blank {
        kind = abstained;
        box_list = [];
        point_list = [];
        deviation_message = none;
        deviations_dropped = 0;
      }
