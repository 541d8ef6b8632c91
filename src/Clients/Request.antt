-- ===== src/Clients/Request.antt =====
-- scripts/lib/smoke_ws_client.py, `build_request`: the typed request from the command line. The other
-- two clients have the same function, and exit by another code.
pub mod Agree
use locate_anything_setup.Prelude.{
  ℕ, Bool, true, false, ◌||◌, Option, none, some, List, [], ◌∷◌, ◌==◌, if◌then◌else◌,
}
use locate_anything_setup.Text.{Text, codes, is_empty, equal}
use locate_anything_setup.Prompts.{clean}
use locate_anything_setup.Prompts.Requests.{
  Request, detection_req, phrase_single_req, phrase_multi_req, text_grounding_req, gui_box_req,
  point_req, scene_text_req,
}

-- The flags that a request is made of; `none` is a flag that is not given.
pub record Args : Type 0 where
  pub task : Text
  pub categories : Option Text
  pub phrase : Option Text
  pub text : Option Text
  pub description : Option Text

-- Why the program exits instead.
pub data Usage : Type 0 where
  no_categories empty_categories no_phrase no_text no_description unknown_task : Usage

pub data Built : Type 0 where
  built : Request → Built
  usage : Usage → Built

unfoldable pub cons_first : ℕ → List Text → List Text
cons_first c [] = (c ∷ []) ∷ []
cons_first c (w ∷ ws) = (c ∷ w) ∷ ws

-- `text.split(sep)`, for a separator of one character.
unfoldable pub split_on : ℕ → Text → List Text
unfolding cons_first
split_on sep [] = [] ∷ []
split_on sep (c ∷ t) =
    let rest = split_on sep t in if c == sep then [] ∷ rest else cons_first c rest

-- A flag that must be given.
abbrev pub with_flag : Option Text → Usage → (Text → Request) → Built
with_flag none u make = usage u
with_flag (some t) u make = built (make t)

unfoldable pub build_detection : Option Text → Built
unfolding clean split_on
build_detection none = usage no_categories
build_detection (some t) =
    let cats = clean (split_on b',' t) in
    if is_empty t
    then usage no_categories
    else if is_empty cats
    then usage empty_categories
    else built (detection_req cats)

unfoldable pub build_request : Args → Built
unfolding build_detection equal
build_request args =
    if equal args.task (codes "detection")
    then build_detection args.categories
    else if equal args.task (codes "phrase_single")
    then with_flag args.phrase no_phrase phrase_single_req
    else if equal args.task (codes "phrase_multi")
    then with_flag args.phrase no_phrase phrase_multi_req
    else if equal args.task (codes "point")
    then with_flag args.phrase no_phrase point_req
    else if equal args.task (codes "text_grounding")
    then with_flag args.text no_text text_grounding_req
    else if equal args.task (codes "gui_box")
    then with_flag args.description no_description gui_box_req
    else if equal args.task (codes "scene_text")
    then built scene_text_req
    else usage unknown_task
