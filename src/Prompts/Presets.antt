-- ===== src/Prompts/Presets.antt =====
-- worker/prompts.py: the tables of prompts and presets, as lists of what the builders return.
use locate_anything_setup.Prelude.{List, [], ◌∷◌, String}
use locate_anything_setup.Text.{Text, codes}
use locate_anything_setup.Prompts.{
  Result, ok, value_error, detect_categories, ground_single, ground_multi, point_to,
}
use locate_anything_setup.Prompts.Requests.{
  Request, Preset, preset, req_detection, req_phrase_single, req_phrase_multi, req_point,
}

-- A list of strings.
abbrev pub texts : List String → List Text
texts [] = []
texts (s ∷ ss) = codes s ∷ texts ss

-- DRONE_PROMPTS_RANKED
unfoldable pub drone_prompts_ranked : List (Result Text)
drone_prompts_ranked =
    point_to (codes "drone in the sky")
    ∷ detect_categories (texts ("drone" ∷ []))
    ∷ ground_multi (codes "a small drone in the sky")
    ∷ point_to (codes "quadcopter")
    ∷ detect_categories (texts ("drone" ∷ "quadcopter" ∷ "uav" ∷ "aircraft" ∷ []))
    ∷ ground_multi (codes "a flying object in the sky")
    ∷ ground_single (codes "the drone")
    ∷ []

abbrev office : List Text
office = texts ("bottle" ∷ "cup" ∷ "laptop" ∷ "keyboard" ∷ "mouse" ∷ "monitor" ∷ "book" ∷ [])

abbrev living_room : List Text
living_room = texts ("person" ∷ "dog" ∷ "cat" ∷ "couch" ∷ "tv" ∷ "laptop" ∷ "book" ∷ "cup" ∷ [])

abbrev kitchen : List Text
kitchen = texts ("bottle" ∷ "cup" ∷ "bowl" ∷ "knife" ∷ "spoon" ∷ "refrigerator" ∷ "microwave" ∷ [])

abbrev street : List Text
street = texts ("person" ∷ "car" ∷ "bus" ∷ "bicycle" ∷ "traffic light" ∷ "stop sign" ∷ [])

abbrev demo : List Text
demo = texts ("person" ∷ "laptop" ∷ "bottle" ∷ "cup" ∷ "book" ∷ "monitor" ∷ "keyboard" ∷ [])

-- The values of HOUSEHOLD_PROMPTS, in the order of its keys.
unfoldable pub household_prompts : List (Result Text)
household_prompts =
    detect_categories office
    ∷ detect_categories living_room
    ∷ detect_categories kitchen
    ∷ detect_categories street
    ∷ detect_categories demo
    ∷ []

-- `_preset(label, request, mode)`, where the request may raise first.
unfoldable pub preset_of : String → Result Request → String → Result Preset
unfolding preset
preset_of label (ok request) mode = preset (codes label) request (codes mode)
preset_of label (value_error r) mode = value_error r

-- DRONE_PRESETS_RANKED
unfoldable pub drone_presets_ranked : List (Result Preset)
unfolding preset_of
drone_presets_ranked =
    preset_of "drone (point)" (req_point (codes "drone in the sky")) "slow"
    ∷ preset_of "drone (detect)" (req_detection (texts ("drone" ∷ []))) "slow"
    ∷ preset_of "small drone (phrase, multi)" (req_phrase_multi (codes "a small drone in the sky"))
        "slow"
    ∷ preset_of "quadcopter (point)" (req_point (codes "quadcopter")) "slow"
    ∷ preset_of "drone/uav/aircraft (detect)"
        (req_detection (texts ("drone" ∷ "quadcopter" ∷ "uav" ∷ "aircraft" ∷ []))) "slow"
    ∷ preset_of "flying object (phrase, multi)"
        (req_phrase_multi (codes "a flying object in the sky")) "slow"
    ∷ preset_of "the drone (phrase, single)" (req_phrase_single (codes "the drone")) "slow"
    ∷ []

-- HOUSEHOLD_PRESETS
unfoldable pub household_presets : List (Result Preset)
unfolding preset_of
household_presets =
    preset_of "office" (req_detection office) "hybrid"
    ∷ preset_of "living_room" (req_detection living_room) "hybrid"
    ∷ preset_of "kitchen" (req_detection kitchen) "hybrid"
    ∷ preset_of "street" (req_detection street) "hybrid"
    ∷ preset_of "demo" (req_detection demo) "hybrid"
    ∷ []
