-- ===== src/Prompts/Requests/Agree.antt =====
-- The typed requests against the prompts.
use locate_anything_setup.Prelude.{◌≡◌, refl, ap, ◌∙◌, List, [], ◌∷◌, Bool-cases, inl, inr}
use mathlib.Core.Path.{fun_ext}
use locate_anything_setup.Text.{Text, codes, strip, is_empty}
use locate_anything_setup.Text.Strip.{strip-strip}
use locate_anything_setup.Prompts.{
  Result, ok, value_error, clean, single_phrase_prefix, gui_box_prefix, multi_phrase_prefix,
  text_grounding_prefix, point_prefix, detect_categories, with_phrase, ground_single, ground_multi,
  ground_text, detect_text, ground_gui, point_to,
}
use locate_anything_setup.Prompts.Requests.{
  Request, detection_req, phrase_single_req, phrase_multi_req, text_grounding_req, gui_box_req,
  point_req, scene_text_req, map_result, clean_slot, req_detection, req_phrase_single,
  req_phrase_multi, req_text_grounding, req_scene_text, req_gui_box, req_point,
}

-- The prompt of a request that is already made.
abbrev pub prompt_of : Request → Result Text
prompt_of (detection_req cs) = detect_categories cs
prompt_of (phrase_single_req t) = ground_single t
prompt_of (phrase_multi_req t) = ground_multi t
prompt_of (text_grounding_req t) = ground_text t
prompt_of (gui_box_req t) = ground_gui t (codes "box")
prompt_of (point_req t) = point_to t
prompt_of scene_text_req = ok detect_text

-- The request made once more, of its own slots.
abbrev pub again : Request → Result Request
again (detection_req cs) = req_detection cs
again (phrase_single_req t) = req_phrase_single t
again (phrase_multi_req t) = req_phrase_multi t
again (text_grounding_req t) = req_text_grounding t
again (gui_box_req t) = req_gui_box t
again (point_req t) = req_point t
again scene_text_req = ok req_scene_text

abbrev pub then_do : {A B : Type 0} → Result A → (A → Result B) → Result B
then_do (ok a) f = f a
then_do (value_error r) f = value_error r

-- A request constructor and the prompt builder of the same task, at the same slot.
pub data SameSlot : Result Request → Result Text → Type 0 where
  of_detection : (cs : List Text) → SameSlot (req_detection cs) (detect_categories cs)
  of_phrase_single : (t : Text) → SameSlot (req_phrase_single t) (ground_single t)
  of_phrase_multi : (t : Text) → SameSlot (req_phrase_multi t) (ground_multi t)
  of_text_grounding : (t : Text) → SameSlot (req_text_grounding t) (ground_text t)
  of_gui_box : (t : Text) → SameSlot (req_gui_box t) (ground_gui t (codes "box"))
  of_point : (t : Text) → SameSlot (req_point t) (point_to t)
  of_scene_text : SameSlot (ok req_scene_text) (ok detect_text)

clean-clean : (cs : List Text) → clean (clean cs) ≡ clean cs
unfolding clean
clean-clean [] = refl
clean-clean (c ∷ cs) = elim (Bool-cases (is_empty (strip c))) [
  | inl h ↦ rw h (clean-clean cs)
  | inr h ↦ rw (h, clean) (rw (strip-strip c) (rw h (ap (◌∷◌ (strip c)) (clean-clean cs))))
]

detect_categories-clean :
    (cs : List Text) → then_do (req_detection cs) prompt_of ≡ detect_categories cs
unfolding req_detection detect_categories
detect_categories-clean cs = elim (Bool-cases (is_empty (clean cs))) [
  | inl h ↦ rw h
  | inr h ↦ rw h (rw (clean-clean cs) (rw h))
]

req_detection-clean : (cs : List Text) → then_do (req_detection cs) again ≡ req_detection cs
unfolding req_detection
req_detection-clean cs = elim (Bool-cases (is_empty (clean cs))) [
  | inl h ↦ rw h
  | inr h ↦ rw h (rw (clean-clean cs) (rw h))
]

with_phrase-clean_slot :
    (prefix t : Text) → then_do (clean_slot t) (with_phrase prefix) ≡ with_phrase prefix t
unfolding clean_slot with_phrase
with_phrase-clean_slot prefix [] = unfold strip in refl
with_phrase-clean_slot prefix (c ∷ t) = elim (Bool-cases (is_empty (strip (c ∷ t)))) [
  | inl h ↦ rw h
  | inr h ↦ rw h (rw (strip-strip (c ∷ t)) (rw h))
]

clean_slot-clean_slot : (t : Text) → then_do (clean_slot t) clean_slot ≡ clean_slot t
unfolding clean_slot
clean_slot-clean_slot t = elim (Bool-cases (is_empty (strip t))) [
  | inl h ↦ rw h
  | inr h ↦ rw h (rw (strip-strip t) (rw h))
]

then_do-map_result :
    {A B C : Type 0} (mk : A → B) (f : B → Result C) (r : Result A)
    → then_do (map_result mk r) f ≡ then_do r (λ a. f (mk a))
then_do-map_result mk f (ok a) = refl
then_do-map_result mk f (value_error e) = refl

map_result-then_do :
    {A B : Type 0} (mk : A → B) (f : A → Result A) (r : Result A)
    → then_do r (λ a. map_result mk (f a)) ≡ map_result mk (then_do r f)
map_result-then_do mk f (ok a) = refl
map_result-then_do mk f (value_error e) = refl

of_slot :
    (mk : Text → Request) (prefix t : Text)
    → ((s : Text) → prompt_of (mk s) ≡ with_phrase prefix s)
    → then_do (map_result mk (clean_slot t)) prompt_of ≡ with_phrase prefix t
of_slot mk prefix t h =
    then_do-map_result mk prompt_of (clean_slot t)
    ∙ ap (then_do (clean_slot t)) (fun_ext h)
    ∙ with_phrase-clean_slot prefix t

again_slot :
    (mk : Text → Request) (t : Text)
    → ((s : Text) → again (mk s) ≡ map_result mk (clean_slot s))
    → then_do (map_result mk (clean_slot t)) again ≡ map_result mk (clean_slot t)
again_slot mk t h =
    then_do-map_result mk again (clean_slot t)
    ∙ ap (then_do (clean_slot t)) (fun_ext h)
    ∙ map_result-then_do mk clean_slot (clean_slot t)
    ∙ ap (map_result mk) (clean_slot-clean_slot t)

-- Making a typed request and then the prompt of its slots is making the prompt at once, errors
-- included, for each of the seven tasks.
pub prompt_of-SameSlot :
    {r : Result Request} {p : Result Text} → SameSlot r p → then_do r prompt_of ≡ p
unfolding req_phrase_single req_phrase_multi req_text_grounding req_scene_text req_gui_box req_point
    ground_single ground_multi ground_text ground_gui point_to
prompt_of-SameSlot (of_detection cs) = detect_categories-clean cs
prompt_of-SameSlot (of_phrase_single t) =
    of_slot phrase_single_req single_phrase_prefix t (λ s. refl)
prompt_of-SameSlot (of_phrase_multi t) = of_slot phrase_multi_req multi_phrase_prefix t (λ s. refl)
prompt_of-SameSlot (of_text_grounding t) =
    of_slot text_grounding_req text_grounding_prefix t (λ s. refl)
prompt_of-SameSlot (of_gui_box t) = of_slot gui_box_req gui_box_prefix t (λ s. refl)
prompt_of-SameSlot (of_point t) = of_slot point_req point_prefix t (λ s. refl)
prompt_of-SameSlot of_scene_text = refl

-- A typed request is made again of its own slots as it stands, for each of the seven tasks.
pub again-SameSlot : {r : Result Request} {p : Result Text} → SameSlot r p → then_do r again ≡ r
unfolding req_phrase_single req_phrase_multi req_text_grounding req_scene_text req_gui_box req_point
again-SameSlot (of_detection cs) = req_detection-clean cs
again-SameSlot (of_phrase_single t) = again_slot phrase_single_req t (λ s. refl)
again-SameSlot (of_phrase_multi t) = again_slot phrase_multi_req t (λ s. refl)
again-SameSlot (of_text_grounding t) = again_slot text_grounding_req t (λ s. refl)
again-SameSlot (of_gui_box t) = again_slot gui_box_req t (λ s. refl)
again-SameSlot (of_point t) = again_slot point_req t (λ s. refl)
again-SameSlot of_scene_text = refl
