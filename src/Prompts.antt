-- ===== src/Prompts.antt =====
-- worker/prompts.py: the template constants, the builders and the classifier.
pub mod Requests
pub mod Presets
pub mod Classify
pub mod Phrase
use locate_anything_setup.Prelude.{
  ℕ, Bool, true, false, ◌||◌, Option, none, some, List, [], ◌∷◌, ◌++◌, map, if◌then◌else◌,
  filter_if,
}
use locate_anything_setup.Text.{
  Text, codes, strip, is_empty, starts_with, after, ends_with_char, init, equal,
}

-- A function that may raise ValueError; the reason stands for the message.
pub data Reason : Type 0 where
  no_category no_phrase not_a_point_prompt empty_slot no_template not_a_mode : Reason

pub data Result (A : Type 0) : Type 0 where
  ok : A → Result A
  value_error : Reason → Result A

abbrev pub category_separator : Text
category_separator = codes "</c>"

abbrev pub detection_prefix : Text
detection_prefix = codes "Locate all the instances that matches the following description: "

abbrev pub single_phrase_prefix : Text
single_phrase_prefix = codes "Locate a single instance that matches the following description: "

abbrev pub gui_box_prefix : Text
gui_box_prefix = codes "Locate the region that matches the following description: "

abbrev pub multi_phrase_prefix : Text
multi_phrase_prefix = codes "Locate all the instances that match the following description: "

abbrev pub text_grounding_prefix : Text
text_grounding_prefix = codes "Please locate the text referred as "

abbrev pub scene_text_exact : Text
scene_text_exact = codes "Detect all the text in box format."

abbrev pub point_prefix : Text
point_prefix = codes "Point to: "

abbrev pub canonical_rendered_prefix : Text
canonical_rendered_prefix =
    codes "<|im_start|>system\nYou are a helpful assistant.\n<|im_end|>\n<|im_start|>user\n"

abbrev pub canonical_rendered_suffix : Text
canonical_rendered_suffix = codes "<|im_end|>\n<|im_start|>assistant\n"

-- The names of TEMPLATE_WIRE_NAMES, in their order.
pub data Task : Type 0 where
  detection phrase_single phrase_multi text_grounding scene_text gui_box point : Task

abbrev pub wire_name : Task → Text
wire_name detection = codes "detection"
wire_name phrase_single = codes "phrase_single"
wire_name phrase_multi = codes "phrase_multi"
wire_name text_grounding = codes "text_grounding"
wire_name scene_text = codes "scene_text"
wire_name gui_box = codes "gui_box"
wire_name point = codes "point"

abbrev pub template_wire_names : List Text
template_wire_names =
    map wire_name (
      detection ∷ phrase_single ∷ phrase_multi ∷ text_grounding ∷ scene_text ∷ gui_box ∷ point ∷ [])

-- `separator.join(parts)`
unfoldable pub join : Text → List Text → Text
join sep [] = []
join sep (x ∷ xs) = elim xs [ [] ↦ x | _ ∷ _ ↦ x ++ (sep ++ join sep xs) ]

-- `[c.strip() for c in categories if c.strip()]`
unfoldable pub clean : List Text → List Text
clean [] = []
clean (c ∷ cs) = let rest = clean cs in if is_empty (strip c) then rest else strip c ∷ rest

-- `f"{prefix}{slot}."`
abbrev pub fill : Text → Text → Text
fill prefix slot = prefix ++ (slot ++ b'.' ∷ [])

unfoldable pub detect_categories : List Text → Result Text
unfolding clean join
detect_categories categories =
    let cats = clean categories in
    if is_empty cats
    then value_error no_category
    else ok (fill detection_prefix (join category_separator cats))

-- `if not phrase or not phrase.strip(): raise`, then the template.
unfoldable pub with_phrase : Text → Text → Result Text
with_phrase prefix phrase =
    if is_empty phrase || is_empty (strip phrase)
    then value_error no_phrase
    else ok (fill prefix (strip phrase))

unfoldable pub ground_single : Text → Result Text
unfolding with_phrase
ground_single phrase = with_phrase single_phrase_prefix phrase

unfoldable pub ground_multi : Text → Result Text
unfolding with_phrase
ground_multi phrase = with_phrase multi_phrase_prefix phrase

unfoldable pub ground_text : Text → Result Text
unfolding with_phrase
ground_text phrase = with_phrase text_grounding_prefix phrase

unfoldable pub detect_text : Text
detect_text = scene_text_exact

unfoldable pub ground_gui : Text → Text → Result Text
unfolding with_phrase equal
ground_gui phrase output_type =
    with_phrase (if equal output_type (codes "point") then point_prefix else gui_box_prefix) phrase

unfoldable pub point_to : Text → Result Text
unfolding with_phrase
point_to phrase = with_phrase point_prefix phrase

-- The phrase of the body behind the prefix: one last `.` is cut off.
unfoldable pub point_body : Text → Result Text
unfolding ends_with_char init
point_body body =
    let phrase = if ends_with_char b'.' body then init body else body in
    if is_empty phrase then value_error empty_slot else ok phrase

unfoldable pub point_phrase : Text → Result Text
unfolding point_body after
point_phrase prompt = elim (after point_prefix prompt) [
  | none ↦ value_error not_a_point_prompt
  | some body ↦ point_body body
]

unfoldable pub classify_prompt : Text → Result Task
unfolding equal starts_with
classify_prompt prompt =
    if equal prompt scene_text_exact
    then ok scene_text
    else if starts_with detection_prefix prompt
    then ok detection
    else if starts_with single_phrase_prefix prompt
    then ok phrase_single
    else if starts_with multi_phrase_prefix prompt
    then ok phrase_multi
    else if starts_with text_grounding_prefix prompt
    then ok text_grounding
    else if starts_with gui_box_prefix prompt
    then ok gui_box
    else if starts_with point_prefix prompt
    then ok point
    else value_error no_template
