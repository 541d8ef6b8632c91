-- ===== src/Inference/Engine.antt =====
-- worker/inference.py, `LocateAnythingInference.run`: one frame, from the JPEG to its variant. The
-- processor, the model and the tokenizer are a parameter, and so is the latency that was measured.
pub mod Laws
pub mod Reply
pub mod NoLoss
use locate_anything_setup.Prelude.{
  ℕ, String, Bool, true, false, not, ◌&&◌, Option, none, some, List, [], ◌∷◌, if◌then◌else◌,
}
use locate_anything_setup.Text.{Text, codes, is_empty, equal, starts_with, ends_with}
use locate_anything_setup.Float.{Float}
use locate_anything_setup.Outcome.{
  Value, str, no_str, Outcome, ok, raise, value_error, runtime_error, empty_prompt, unknown_task,
  empty_jpeg, no_plan, wrong_prefix, wrong_suffix, wrong_vision_info, missing_key, bad_point_prompt,
  ◌>>=◌, ◌>>◌, ensure, some_or_raise,
}
use locate_anything_setup.Pixel.{ImageResize, plan_resize}
use locate_anything_setup.Parsing.{parse_boxes, parse_points, count_malformed_geometry}
use locate_anything_setup.Prompts
use locate_anything_setup.Prompts.{
  Task, detection, phrase_single, phrase_multi, text_grounding, scene_text, gui_box, point,
  wire_name, point_phrase, canonical_rendered_prefix, canonical_rendered_suffix,
}
use locate_anything_setup.Inference.Config.{GenConfig, Kwargs, to_kwargs}
use locate_anything_setup.Inference.Image.{Bytes, Pil, decode_image, size_gates}
use locate_anything_setup.Inference.Variant.{
  abstained, InferenceResult, Geometry, report, is_truncated, resolve,
}

-- What `.generate()` returns: a text, or tokens to decode, either perhaps first of a tuple.
pub data Generated (Tokens : Type 0) : Type 0 where
  text text_first : Text → Generated Tokens
  tokens tokens_first : Tokens → Generated Tokens

pub record Upstream (Img Vision Inputs Tokens F : Type 0) : Type 0 where
  pub apply_chat_template : Img → Text → Text
  -- `none` where the result is not the pair of images and videos.
  pub process_vision_info : Img → Text → Option Vision
  pub process : Text → Vision → Inputs
  pub has_key : Inputs → String → Bool
  pub generate : Inputs → Kwargs F → Outcome (Generated Tokens)
  pub decode : Tokens → Text

-- `prompt_task in EXPECTED_SHAPE`, of a `str`: the task with this wire name.
unfoldable pub task_named : List Task → Text → Option Task
task_named [] name = none
task_named (t ∷ ts) name =
    let rest = task_named ts name in if equal (wire_name t) name then some t else rest

unfoldable pub task_of : Value → Option Task
unfolding task_named equal
task_of (str name) =
    task_named
      (detection ∷ phrase_single ∷ phrase_multi ∷ text_grounding ∷ scene_text ∷ gui_box ∷ point
        ∷ [])
      name
task_of no_str = none

-- The first checks, and the task.
unfoldable pub check_arguments : Bytes → Text → Value → Outcome Task
unfolding task_of
check_arguments jpeg prompt prompt_task = do
  ensure (not (is_empty prompt)) (value_error empty_prompt)
  task ← some_or_raise (task_of prompt_task) (value_error unknown_task)
  ensure (not (is_empty jpeg)) (value_error empty_jpeg)
  ok task

-- `prompts.point_phrase(prompt) if prompt_task == "point" else None`
unfoldable pub point_label : Task → Text → Outcome (Option Text)
point_label point prompt = elim (point_phrase prompt) [
  | Prompts.ok t ↦ ok (some t)
  | Prompts.value_error _ ↦ raise (value_error bad_point_prompt)
]
point_label _ prompt = ok none

module _ {F : Type 0} ⦃fl : Float F⦄ where
  -- The parsers' results for one answer.
  unfoldable pub parse_answer : Text → ℕ → ℕ → Option Text → Geometry F
  parse_answer answer w h label =
      let (boxes, box_off) = parse_boxes answer w h in
      let (points, point_off) = parse_points answer w h label in
      record {
        box_dicts = boxes;
        box_off = box_off;
        point_dicts = points;
        point_off = point_off;
        malformed = count_malformed_geometry answer;
      }

  -- The fields of a reply that no variant changes.
  unfoldable pub blank_result : Text → ℕ → ℕ → ImageResize F → F → InferenceResult F
  unfolding report is_truncated
  blank_result answer w h plan latency = record {
    kind = abstained;
    box_list = [];
    point_list = [];
    deviation_message = none;
    raw_answer = answer;
    deviations_dropped = 0;
    model_output_truncated = is_truncated answer;
    latency_ms = latency;
    image_size = (w, h);
    resize_plan = report plan;
  }

module _ {Img Profile Vision Inputs Tokens F : Type 0} ⦃fl : Float F⦄ (pil : Pil Img Profile)
    (up : Upstream Img Vision Inputs Tokens F) where
  -- The image that passes the gates, and its plan.
  unfoldable pub load_image : Bytes → Outcome (Img × ImageResize F)
  load_image jpeg = do
    image ← decode_image pil jpeg
    size_gates (pil.width image) (pil.height image)
    plan ← some_or_raise (plan_resize (pil.width image) (pil.height image)) (value_error no_plan)
    ok (image, plan)

  -- The rendered text must have the bookends of training; then the processor's inputs.
  unfoldable pub render : Img → Text → Outcome Inputs
  unfolding starts_with ends_with
  render image prompt = do
    let rendered = up.apply_chat_template image prompt
    ensure (starts_with canonical_rendered_prefix rendered) (runtime_error wrong_prefix)
    ensure (ends_with canonical_rendered_suffix rendered) (runtime_error wrong_suffix)
    vision ← some_or_raise (up.process_vision_info image prompt) (runtime_error wrong_vision_info)
    let inputs = up.process rendered vision
    ensure
        (up.has_key inputs "pixel_values"
          && up.has_key inputs "input_ids"
          && up.has_key inputs "attention_mask"
          && up.has_key inputs "image_grid_hws")
        (runtime_error missing_key)
    ok inputs

  -- `out[0] if isinstance(out, tuple) else out`, decoded where it is no text.
  unfoldable pub answer_of : Generated Tokens → Text
  answer_of (text t) = t
  answer_of (text_first t) = t
  answer_of (tokens x) = up.decode x
  answer_of (tokens_first x) = up.decode x

  unfoldable pub run : GenConfig F → F → Bytes → Text → Value → Value → Outcome (InferenceResult F)
  run cfg latency jpeg prompt mode prompt_task = do
    task ← check_arguments jpeg prompt prompt_task
    (image, plan) ← load_image jpeg
    inputs ← render image prompt
    kwargs ← to_kwargs cfg mode
    out ← up.generate inputs kwargs
    let answer = answer_of out
    label ← point_label task prompt
    let w = pil.width image
    let h = pil.height image
    ok (resolve task (parse_answer answer w h label) (blank_result answer w h plan latency))
