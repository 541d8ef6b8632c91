-- ===== src/Tests/Presets.antt =====
-- The advertised presets are accepted, and are the ranked prompts as typed requests.
use locate_anything_setup.Prelude.{◌≡◌, refl, [], ◌∷◌, map}
use locate_anything_setup.Text.{Text, strip, is_space}
use locate_anything_setup.Prompts.{
  Result, ok, detect_categories, ground_single, ground_multi, point_to,
}
use locate_anything_setup.Prompts.Requests.{
  Preset, Mode, slow, hybrid, req_detection, req_point, req_phrase_single, req_phrase_multi,
}
use locate_anything_setup.Prompts.Requests.Agree.{prompt_of, then_do}
use locate_anything_setup.Prompts.Presets.{
  drone_prompts_ranked, household_prompts, drone_presets_ranked, household_presets,
}

-- The prompt that a preset's request stands for, and the preset's mode.
abbrev preset_prompt : Result Preset → Result Text
preset_prompt p = then_do p (λ q. prompt_of q.request)

abbrev preset_mode : Result Preset → Result Mode
preset_mode p = then_do p (λ q. ok q.generation_mode)

presets_agree :
    (map preset_prompt drone_presets_ranked ≡ drone_prompts_ranked)
    × (map preset_prompt household_presets ≡ household_prompts)
    × (map preset_mode drone_presets_ranked
        ≡ ok slow ∷ ok slow ∷ ok slow ∷ ok slow ∷ ok slow ∷ ok slow ∷ ok slow ∷ [])
    × (map preset_mode household_presets
        ≡ ok hybrid ∷ ok hybrid ∷ ok hybrid ∷ ok hybrid ∷ ok hybrid ∷ [])
unfolding drone_presets_ranked drone_prompts_ranked point_to req_point detect_categories
    req_detection ground_multi req_phrase_multi ground_single req_phrase_single strip is_space
    household_prompts household_presets
presets_agree = (refl, refl, refl, refl)
