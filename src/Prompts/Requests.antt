-- ===== src/Prompts/Requests.antt =====
-- worker/prompts.py: the typed request constructors and the presets.
pub mod Agree
use locate_anything_setup.Prelude.{Option, none, some, List, if◌then◌else◌}
use locate_anything_setup.Text.{Text, codes, strip, is_empty, equal}
use locate_anything_setup.Prompts.{
  Result, ok, value_error, no_category, no_phrase, not_a_mode, clean,
}

-- The typed requests: the dict of each task, by its slot.
pub data Request : Type 0 where
  detection_req : List Text → Request
  phrase_single_req phrase_multi_req text_grounding_req gui_box_req point_req : Text → Request
  scene_text_req : Request

-- `_clean_slot`
unfoldable pub clean_slot : Text → Result Text
clean_slot s = if is_empty (strip s) then value_error no_phrase else ok (strip s)

abbrev pub map_result : {A B : Type 0} → (A → B) → Result A → Result B
map_result f (ok a) = ok (f a)
map_result f (value_error r) = value_error r

unfoldable pub req_detection : List Text → Result Request
unfolding clean
req_detection categories =
    let cats = clean categories in
    if is_empty cats then value_error no_category else ok (detection_req cats)

unfoldable pub req_phrase_single : Text → Result Request
unfolding clean_slot
req_phrase_single phrase = map_result phrase_single_req (clean_slot phrase)

unfoldable pub req_phrase_multi : Text → Result Request
unfolding clean_slot
req_phrase_multi phrase = map_result phrase_multi_req (clean_slot phrase)

unfoldable pub req_text_grounding : Text → Result Request
unfolding clean_slot
req_text_grounding text = map_result text_grounding_req (clean_slot text)

unfoldable pub req_scene_text : Request
req_scene_text = scene_text_req

unfoldable pub req_gui_box : Text → Result Request
unfolding clean_slot
req_gui_box description = map_result gui_box_req (clean_slot description)

unfoldable pub req_point : Text → Result Request
unfolding clean_slot
req_point phrase = map_result point_req (clean_slot phrase)

-- The three generation modes.
pub data Mode : Type 0 where
  fast hybrid slow : Mode

-- `mode in ("fast", "hybrid", "slow")`
unfoldable pub mode_of : Text → Option Mode
unfolding equal
mode_of t =
    if equal t (codes "fast")
    then some fast
    else if equal t (codes "hybrid")
    then some hybrid
    else if equal t (codes "slow")
    then some slow
    else none

pub record Preset : Type 0 where
  pub label : Text
  pub request : Request
  pub generation_mode : Mode

-- `_preset`
unfoldable pub preset : Text → Request → Text → Result Preset
unfolding mode_of
preset label request generation_mode = elim (mode_of generation_mode) [
  | none ↦ value_error not_a_mode
  | some m ↦ ok (record { label = label; request = request; generation_mode = m })
]
