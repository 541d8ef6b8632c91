-- ===== src/Worker/Reply.antt =====
-- worker/la_worker.py: the reply dicts and `_frame_error`.
use locate_anything_setup.Prelude.{
  ℕ, String, Bool, Option, none, some, List, [], ◌∷◌, any, str_eq, if◌then◌else◌,
}
use locate_anything_setup.Text.{Text}
use locate_anything_setup.Float.{Float}
use locate_anything_setup.Outcome.{Cause, Outcome, ok, raise, value_error, unknown_code}
use locate_anything_setup.Parsing.{Detection, Point}
use locate_anything_setup.Prompts.Requests.{Mode}
use locate_anything_setup.Inference.Variant.{
  Kind, boxes, points, DeviationMessage, PlanReport, InferenceResult,
}

-- What a message of the worker says.
pub data Message : Type 0 where
  no_frame_id : Message
  header_key_missing : String → Message
  prompt_empty : Message
  prompt_too_long : ℕ → Message
  mode_unknown payload_empty no_soi : Message
  error_text : Cause → Message
  deviation_text : Option DeviationMessage → Message
  header_not_utf8 header_not_json header_not_object kind_unknown : Message
  cuda_out_of_memory inference_timeout unexpected : Message

-- The success body; a list of geometry is a key only of its own variant.
pub record Body (F : Type 0) : Type 0 where
  pub kind : Kind
  pub frame_id : Text
  pub raw_text : Text
  pub model_output_truncated : Bool
  pub deviations_dropped : ℕ
  pub image_size : ℕ × ℕ
  pub resize_plan : PlanReport F
  pub generation_mode_used : Mode
  pub latency_ms : F
  pub total_ms : F
  pub box_list : Option (List (Detection F))
  pub point_list : Option (List (Point F))

pub data Reply (F : Type 0) : Type 0 where
  -- `"ok": False, "type": "error"`: frame id, code, message
  error : Text → String → Message → Reply F
  -- `"ok": True`
  success : Body F → Reply F
  capabilities info : Reply F

-- _ERROR_CODES
abbrev pub error_codes : List String
error_codes = "invalid_request" ∷ "invalid_image" ∷ "model_deviation" ∷ "internal" ∷ []

module _ {F : Type 0} where
  -- `_frame_error`
  unfoldable pub frame_error : Text → String → Message → Outcome (Reply F)
  frame_error frame_id code message =
      if any (str_eq code) error_codes
      then ok (error frame_id code message)
      else raise (value_error unknown_code)

  abbrev pub boxes_key : Kind → List (Detection F) → Option (List (Detection F))
  boxes_key boxes xs = some xs
  boxes_key _ xs = none

  abbrev pub points_key : Kind → List (Point F) → Option (List (Point F))
  points_key points xs = some xs
  points_key _ xs = none

-- The body of a success, built from the engine's result.
unfoldable pub body_of : {F : Type 0} ⦃fl : Float F⦄ → Text → Mode → F → InferenceResult F → Body F
body_of ⦃fl⦄ frame_id mode total_ms r = record {
  kind = r.kind;
  frame_id = frame_id;
  raw_text = r.raw_answer;
  model_output_truncated = r.model_output_truncated;
  deviations_dropped = r.deviations_dropped;
  image_size = r.image_size;
  resize_plan = r.resize_plan;
  generation_mode_used = mode;
  latency_ms = fl.round_to r.latency_ms 1;
  total_ms = fl.round_to total_ms 1;
  box_list = boxes_key r.kind r.box_list;
  point_list = points_key r.kind r.point_list;
}
