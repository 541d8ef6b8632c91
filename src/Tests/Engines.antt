-- ===== src/Tests/Engines.antt =====
-- A run on a stub of the libraries, whose answer is one labelled point.
use locate_anything_setup.Prelude.{
  ℕ, ◌≡◌, ◌+◌, refl, none, some, [], ◌∷◌, ◌++◌, true, false, length, ◌≤◌, if◌then◌else◌, ◌==◌,
  Option,
}
use locate_anything_setup.Text.{Text, codes}
use locate_anything_setup.Outcome.{str, ok}
use locate_anything_setup.Prompts.{
  Task, detection, point, canonical_rendered_prefix, canonical_rendered_suffix,
}
use locate_anything_setup.Prompts.Requests.{slow}
use locate_anything_setup.Pixel.{ceil_to_grid}
use locate_anything_setup.Parsing.{Point}
use locate_anything_setup.Inference.Config.{GenConfig, Kwargs, checked_mode, to_kwargs}
use locate_anything_setup.Inference.Image.{
  Bytes, PilError, unidentified, cms_error, other, returned, raised, Pil, open_rgb, decode_image,
  size_gates,
}
use locate_anything_setup.Inference.Variant.{
  points, abstained, InferenceResult, Geometry, valid_count, valid_kind, expected_shape, resolve,
  is_truncated,
}
use locate_anything_setup.Inference.Variant.Laws.{
  total, resolve-total, WellFormed, resolve-WellFormed,
}
use locate_anything_setup.Inference.Engine.{text, Upstream, task_of, point_label, parse_answer, run}
use locate_anything_setup.Inference.Engine.Reply.{run-reply}
use locate_anything_setup.Inference.Engine.NoLoss.{run-boxes_kept}
use locate_anything_setup.Regex.{box_re, finditer}
use locate_anything_setup.Tests.Base.{thousandths}

abbrev pub stub_pil : Pil (ℕ × ℕ) (Unit {0})
stub_pil = record {
  open_image = λ jpeg. if length jpeg == 0 then raised unidentified else returned (56, 28);
  is_cmyk = λ i. false;
  exif_transpose = λ i. returned i;
  icc_profile = λ i. none;
  load_profile = λ b. returned tt;
  description = λ p. returned [];
  profile_to_srgb = λ i p. returned i;
  convert_rgb = λ i. returned i;
  width = λ i. i.0;
  height = λ i. i.1;
}

abbrev pub drone_answer : Text
drone_answer = codes "<ref>drone</ref><box><100><200></box><|im_end|>"

abbrev pub stub_model : Upstream (ℕ × ℕ) (Unit {0}) Text (Unit {0}) ℕ
stub_model = record {
  apply_chat_template =
      λ i prompt. canonical_rendered_prefix ++ (prompt ++ canonical_rendered_suffix);
  process_vision_info = λ i prompt. some tt;
  process = λ rendered v. rendered;
  has_key = λ inputs k. true;
  generate = λ inputs kwargs. ok (text drone_answer);
  decode = λ t. [];
}

abbrev pub defaults : GenConfig ℕ
defaults = record {
  temperature = 700;
  top_p = 900;
  repetition_penalty = 1100;
  do_sample = true;
  max_new_tokens = 8192;
  n_future_tokens = 6;
}

abbrev pub a_jpeg : Bytes
a_jpeg = 255 ∷ 216 ∷ 255 ∷ 224 ∷ []

abbrev pub drone_point : Point ℕ
drone_point = record { label = codes "drone"; point_norm = (100, 200); point_px = (5600, 5600) }

abbrev pub drone_reply : InferenceResult ℕ
drone_reply = record {
  kind = points;
  box_list = [];
  point_list = drone_point ∷ [];
  deviation_message = none;
  raw_answer = drone_answer;
  deviations_dropped = 0;
  model_output_truncated = false;
  latency_ms = 12000;
  image_size = (56, 28);
  resize_plan = record { dst_w = 56; dst_h = 28; n_llm_tokens = 2; scale = 1000 };
}

drone_run :
    run stub_pil stub_model defaults 12000 a_jpeg
      (codes "Point to: drone.")
      (str (codes "hybrid"))
      (str (codes "point"))
    ≡ ok drone_reply
unfolding thousandths run locate_anything_setup.Inference.Engine.check_arguments
    locate_anything_setup.Inference.Engine.load_image decode_image size_gates
    locate_anything_setup.Pixel.plan_resize locate_anything_setup.Pixel.downscale
    locate_anything_setup.Inference.Engine.render to_kwargs point_label
    locate_anything_setup.Prompts.point_phrase resolve parse_answer
    locate_anything_setup.Parsing.parse_points locate_anything_setup.Regex.finditer
    locate_anything_setup.Inference.Engine.answer_of locate_anything_setup.Regex.ref_run_re
    locate_anything_setup.Regex.block checked_mode locate_anything_setup.Inference.Config.kwargs_for
    locate_anything_setup.Inference.Engine.blank_result
    locate_anything_setup.Inference.Engine.task_named task_of
    locate_anything_setup.Inference.Image.contains
    locate_anything_setup.Inference.Image.convert_profile
    locate_anything_setup.Inference.Image.decoded locate_anything_setup.Inference.Image.grid_patches
    locate_anything_setup.Inference.Image.icc_error
    locate_anything_setup.Inference.Image.is_decode_error
    locate_anything_setup.Inference.Image.lower open_rgb
    locate_anything_setup.Inference.Image.to_srgb
    locate_anything_setup.Inference.Variant.any_geometry_block
    locate_anything_setup.Inference.Variant.dropped expected_shape is_truncated
    locate_anything_setup.Inference.Variant.report valid_count
    locate_anything_setup.Parsing.bare_points locate_anything_setup.Parsing.clamp_coord
    locate_anything_setup.Parsing.count_malformed_geometry
    locate_anything_setup.Parsing.is_malformed locate_anything_setup.Parsing.make_box
    locate_anything_setup.Parsing.make_point locate_anything_setup.Parsing.parse_boxes
    locate_anything_setup.Parsing.points_in_run locate_anything_setup.Parsing.run_boxes
    locate_anything_setup.Parsing.run_points locate_anything_setup.Parsing.to_px ceil_to_grid
    locate_anything_setup.Pixel.plan_grid locate_anything_setup.Prompts.Requests.mode_of
    locate_anything_setup.Prompts.point_body locate_anything_setup.Regex.after_close
    locate_anything_setup.Regex.any_box_re locate_anything_setup.Regex.blocks
    locate_anything_setup.Regex.box_re locate_anything_setup.Regex.coord
    locate_anything_setup.Regex.digits locate_anything_setup.Regex.find_from
    locate_anything_setup.Regex.fullmatch locate_anything_setup.Regex.label_span
    locate_anything_setup.Regex.none_re locate_anything_setup.Regex.number
    locate_anything_setup.Regex.point_re locate_anything_setup.Regex.span
    locate_anything_setup.Text.after locate_anything_setup.Text.digit
    locate_anything_setup.Text.ends_with locate_anything_setup.Text.ends_with_char
    locate_anything_setup.Text.equal locate_anything_setup.Text.init
    locate_anything_setup.Text.is_space locate_anything_setup.Text.lstrip
    locate_anything_setup.Text.rstrip locate_anything_setup.Text.starts_with
    locate_anything_setup.Text.strip
drone_run = refl

run-reply_example :
    WellFormed drone_reply
    × ((task : Task) × (label : Option Text) × (task_of (str (codes "point")) ≡ some task)
        × (point_label task (codes "Point to: drone.") ≡ ok label)
        × (1 ≡ total {F = ℕ} (parse_answer drone_answer 56 28 label)))
    × (false ≡ is_truncated drone_answer)
    × (size_gates 56 28 ≡ ok tt)
    × (56 ≡ ceil_to_grid 56)
    × (28 ≡ ceil_to_grid 28)
run-reply_example =
    run-reply stub_pil stub_model defaults 12000 a_jpeg (codes "Point to: drone.")
      (str (codes "hybrid")) (str (codes "point")) drone_reply drone_run

-- One point, and a box that is off the contract.
abbrev mixed : Geometry ℕ
mixed = record {
  box_dicts = [];
  box_off = 1;
  point_dicts = drone_point ∷ [];
  point_off = 0;
  malformed = 1;
}

resolve-total_example :
    length (resolve detection mixed drone_reply).box_list
      + length (resolve detection mixed drone_reply).point_list
      + (resolve detection mixed drone_reply).deviations_dropped
    ≡ 3
resolve-total_example = resolve-total detection mixed drone_reply

resolve-WellFormed_example : WellFormed (resolve point mixed drone_reply)
resolve-WellFormed_example = resolve-WellFormed point mixed drone_reply

run-boxes_kept_example : length (finditer box_re drone_answer) ≤ 1
run-boxes_kept_example =
    run-boxes_kept stub_pil stub_model defaults 12000 a_jpeg (codes "Point to: drone.")
      (str (codes "hybrid")) (str (codes "point")) drone_reply drone_run

abbrev nothing_answer : Text
nothing_answer = codes "<box>None</box><|im_end|>"

abbrev nothing_model : Upstream (ℕ × ℕ) (Unit {0}) Text (Unit {0}) ℕ
nothing_model = record {
  apply_chat_template =
      λ i prompt. canonical_rendered_prefix ++ (prompt ++ canonical_rendered_suffix);
  process_vision_info = λ i prompt. some tt;
  process = λ rendered v. rendered;
  has_key = λ inputs k. true;
  generate = λ inputs kwargs. ok (text nothing_answer);
  decode = λ t. [];
}

abbrev nothing_reply : InferenceResult ℕ
nothing_reply = record {
  kind = abstained;
  box_list = [];
  point_list = [];
  deviation_message = none;
  raw_answer = nothing_answer;
  deviations_dropped = 0;
  model_output_truncated = false;
  latency_ms = 12000;
  image_size = (56, 28);
  resize_plan = record { dst_w = 56; dst_h = 28; n_llm_tokens = 2; scale = 1000 };
}
