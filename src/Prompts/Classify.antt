-- ===== src/Prompts/Classify.antt =====
-- The classifier undoes the builders.
use locate_anything_setup.Prelude.{◌≡◌, arith, List}
use locate_anything_setup.Text.{Text, codes, strip}
use locate_anything_setup.Prompts.{
  ok, category_separator, detection_prefix, single_phrase_prefix, gui_box_prefix,
  multi_phrase_prefix, text_grounding_prefix, point_prefix, Task, detection, phrase_single,
  phrase_multi, text_grounding, scene_text, gui_box, point, join, clean, fill, detect_categories,
  with_phrase, ground_single, ground_multi, ground_text, detect_text, ground_gui, point_to,
  classify_prompt,
}

-- The prompts that a builder makes, by the task that the builder is for.
pub data Builds : Task → Text → Type 0 where
  by_detect_categories :
      (cs : List Text) {p : Text} → detect_categories cs ≡ ok p → Builds detection p
  by_ground_single : (t : Text) {p : Text} → ground_single t ≡ ok p → Builds phrase_single p
  by_ground_multi : (t : Text) {p : Text} → ground_multi t ≡ ok p → Builds phrase_multi p
  by_ground_text : (t : Text) {p : Text} → ground_text t ≡ ok p → Builds text_grounding p
  by_detect_text : {p : Text} → detect_text ≡ p → Builds scene_text p
  by_ground_gui : (t : Text) {p : Text} → ground_gui t (codes "box") ≡ ok p → Builds gui_box p
  by_gui_point : (t : Text) {p : Text} → ground_gui t (codes "point") ≡ ok p → Builds point p
  by_point_to : (t : Text) {p : Text} → point_to t ≡ ok p → Builds point p

pub with_phrase-eq-ok :
    (prefix t p : Text) → with_phrase prefix t ≡ ok p → p ≡ fill prefix (strip t)
unfolding with_phrase
with_phrase-eq-ok prefix t p h = ground arith

detect_categories-eq-ok :
    (cs : List Text) (p : Text)
    → detect_categories cs ≡ ok p
    → p ≡ fill detection_prefix (join category_separator (clean cs))
unfolding detect_categories
detect_categories-eq-ok cs p h = ground arith

-- A prompt that one of the builders made is classified as the task of that builder, whatever its
-- slots hold.
pub classify_prompt-Builds : {t : Task} {p : Text} → Builds t p → classify_prompt p ≡ ok t
unfolding classify_prompt ground_single ground_multi ground_text detect_text ground_gui point_to
classify_prompt-Builds (by_detect_categories cs {p} h) = rw (detect_categories-eq-ok cs p h)
classify_prompt-Builds (by_ground_single t {p} h) =
    rw (with_phrase-eq-ok single_phrase_prefix t p h)
classify_prompt-Builds (by_ground_multi t {p} h) = rw (with_phrase-eq-ok multi_phrase_prefix t p h)
classify_prompt-Builds (by_ground_text t {p} h) = rw (with_phrase-eq-ok text_grounding_prefix t p h)
classify_prompt-Builds (by_detect_text h) = rw (← h)
classify_prompt-Builds (by_ground_gui t {p} h) = rw (with_phrase-eq-ok gui_box_prefix t p h)
classify_prompt-Builds (by_gui_point t {p} h) = rw (with_phrase-eq-ok point_prefix t p h)
classify_prompt-Builds (by_point_to t {p} h) = rw (with_phrase-eq-ok point_prefix t p h)
