-- ===== src/Startup/Templates.antt =====
-- worker/validate_startup.py: the comparison of the prompt templates with those of the Rust binary,
-- and of EXPECTED_SHAPE with the wire names.
pub mod Agree
use locate_anything_setup.Prelude.{
  ℕ, Bool, true, false, not, ◌&&◌, Option, none, some, List, [], ◌∷◌, map, filter_if, any,
  if◌then◌else◌,
}
use locate_anything_setup.Text.{Text, codes, is_empty, equal}
use locate_anything_setup.Prompts.{
  category_separator, detection_prefix, single_phrase_prefix, multi_phrase_prefix,
  text_grounding_prefix, scene_text_exact, gui_box_prefix, point_prefix, template_wire_names,
}
use locate_anything_setup.Startup.{
  Validation, passed, no_binary, not_run, failed_run, unparsed_output, not_an_object, drifted_keys,
  drifted_templates, drifted_shapes, first_failure,
}

-- A value of the dict of constants: a text, or a list of texts.
pub data TemplateValue : Type 0 where
  one : Text → TemplateValue
  several : List Text → TemplateValue
  other : TemplateValue

abbrev pub Constants : Type 0
Constants = List (Text × TemplateValue)

-- CANONICAL_TEMPLATES
unfoldable pub canonical_templates : Constants
canonical_templates =
    (codes "category_separator", one category_separator)
    ∷ (codes "detection_prefix", one detection_prefix)
    ∷ (codes "single_phrase_prefix", one single_phrase_prefix)
    ∷ (codes "multi_phrase_prefix", one multi_phrase_prefix)
    ∷ (codes "text_grounding_prefix", one text_grounding_prefix)
    ∷ (codes "scene_text_exact", one scene_text_exact)
    ∷ (codes "gui_box_prefix", one gui_box_prefix)
    ∷ (codes "point_prefix", one point_prefix)
    ∷ (codes "template_wire_names", several template_wire_names)
    ∷ []

-- The keys of EXPECTED_SHAPE.
unfoldable pub expected_shape_keys : List Text
expected_shape_keys =
    codes "detection"
    ∷ codes "phrase_single"
    ∷ codes "phrase_multi"
    ∷ codes "text_grounding"
    ∷ codes "scene_text"
    ∷ codes "gui_box"
    ∷ codes "point"
    ∷ []

-- What `json.loads` makes of the output of the binary.
pub data Output : Type 0 where
  unparsed not_object : Output
  constants : Constants → Output

-- The binary is not there, cannot be run in time, fails, or prints.
pub data BinaryRun : Type 0 where
  missing raised failed : BinaryRun
  printed : Output → BinaryRun

-- `key in keys`
unfoldable pub is_key : List Text → Text → Bool
unfolding equal
is_key keys key = any (equal key) keys

-- `constants[key]`
unfoldable pub constant_at : Text → Constants → Option TemplateValue
unfolding equal
constant_at key [] = none
constant_at key ((k, v) ∷ rest) =
    let found = constant_at key rest in if equal k key then some v else found

unfoldable pub same_texts : List Text → List Text → Bool
unfolding equal
same_texts [] [] = true
same_texts (a ∷ as_) (b ∷ bs) = equal a b && same_texts as_ bs
same_texts _ _ = false

-- `py_val == rust_val`
unfoldable pub same_template : TemplateValue → TemplateValue → Bool
unfolding equal same_texts
same_template (one a) (one b) = equal a b
same_template (several a) (several b) = same_texts a b
same_template _ _ = false

unfoldable pub is_template_drift : Constants → Text × TemplateValue → Bool
is_template_drift rust (key, py_val) = elim (constant_at key rust) [
  | none ↦ true
  | some rust_val ↦ not (same_template py_val rust_val)
]

-- `sorted(set(a) - set(b))`, in the order of `a`.
unfoldable pub only_in : List Text → List Text → List Text
unfolding is_key
only_in a b = filter_if (λ key. not (is_key b key)) a

-- Two sets of keys differ if one has a key beyond the other's.
unfoldable pub keys_differ : List Text → List Text → Bool
keys_differ a b = not (is_empty (only_in a b) && is_empty (only_in b a))

unfoldable pub template_checks : Constants → List (Bool × Validation)
template_checks rust =
    let py_keys = map (λ (c : Text × TemplateValue). c.0) canonical_templates in
    let rust_keys = map (λ (c : Text × TemplateValue). c.0) rust in
    let drift = filter_if (is_template_drift rust) canonical_templates in
    (
      keys_differ py_keys rust_keys,
      drifted_keys (only_in py_keys rust_keys) (only_in rust_keys py_keys),
    )
    ∷ (not (is_empty drift), drifted_templates (map (λ (c : Text × TemplateValue). c.0) drift))
    ∷ (
      keys_differ expected_shape_keys template_wire_names,
      drifted_shapes (only_in expected_shape_keys template_wire_names)
          (only_in template_wire_names expected_shape_keys),
    )
    ∷ []

unfoldable pub validate_prompt_template_drift : BinaryRun → Validation
validate_prompt_template_drift missing = no_binary
validate_prompt_template_drift raised = not_run
validate_prompt_template_drift failed = failed_run
validate_prompt_template_drift (printed unparsed) = unparsed_output
validate_prompt_template_drift (printed not_object) = not_an_object
validate_prompt_template_drift (printed (constants rust)) = first_failure (template_checks rust)
