-- ===== src/Tests/Texts.antt =====
-- Prompts, answers and frames.
use locate_anything_setup.Prelude.{
  ℕ, ◌≡◌, ◌≤◌, ◌+◌, refl, some, List, [], ◌∷◌, ◌++◌, All, false, length,
}
use locate_anything_setup.Text.{Text, codes, strip}
use locate_anything_setup.Outcome
use locate_anything_setup.Prompts.{
  ok, detection, detect_categories, point_to, point_phrase, point_prefix, classify_prompt,
}
use locate_anything_setup.Prompts.Classify.{by_detect_categories, classify_prompt-Builds}
use locate_anything_setup.Prompts.Phrase.{point_phrase-point_to}
use locate_anything_setup.Regex.{block, blocks, finditer, box_re}
use locate_anything_setup.Parsing.Accounts.{parse_boxes_total}
use locate_anything_setup.Parsing.{Detection, parse_boxes, parse_points}
use locate_anything_setup.Parsing.Bounds.{IsBox, IsPoint, parse_boxes-IsBox, parse_points-IsPoint}
use locate_anything_setup.Framing.{Read, frame, read_frame, write_frame}
use locate_anything_setup.Framing.RoundTrip.{read_frame-write_frame, read_frame-length}
use locate_anything_setup.Tests.Base.{thousandths}

abbrev categories : List Text
categories = codes " drone" ∷ codes "  " ∷ codes "bird\n" ∷ []

abbrev drone_and_bird : Text
drone_and_bird =
    codes "Locate all the instances that matches the following description: drone</c>bird."

categories_made : detect_categories categories ≡ ok drone_and_bird
unfolding detect_categories strip locate_anything_setup.Text.is_space
categories_made = refl

classify_prompt-Builds_example : classify_prompt drone_and_bird ≡ ok detection
classify_prompt-Builds_example =
    classify_prompt-Builds (by_detect_categories categories categories_made)

drone_made : point_to (codes " drone ") ≡ ok (codes "Point to: drone.")
unfolding point_to strip locate_anything_setup.Text.is_space
drone_made = refl

point_phrase-point_to_example :
    point_phrase (codes "Point to: drone.") ≡ ok (strip (codes " drone "))
point_phrase-point_to_example =
    point_phrase-point_to (codes " drone ") (codes "Point to: drone.") drone_made

drone_phrase : point_phrase (point_prefix ++ codes "drone.") ≡ ok (codes "drone")
unfolding point_phrase
drone_phrase = refl

abbrev two_blocks : Text
two_blocks = codes "<box>1</box> <box>2</box> rest"

abbrev answer : Text
answer = codes "<ref>drone</ref><box><900><200><100><1200></box><box><10><20></box>"

parse_boxes-IsBox_example : All (IsBox {F = ℕ} 640 480) (parse_boxes answer 640 480).0
parse_boxes-IsBox_example = parse_boxes-IsBox ℕ answer 640 480

parse_points-IsPoint_example :
    All (IsPoint {F = ℕ} 640 480) (parse_points answer 640 480 (some (codes "drone"))).0
parse_points-IsPoint_example = parse_points-IsPoint ℕ answer 640 480 (some (codes "drone"))

parse_boxes_total_example :
    length (parse_boxes {F = ℕ} answer 640 480).0 + (parse_boxes {F = ℕ} answer 640 480).1
    ≡ length (finditer box_re answer)
parse_boxes_total_example = parse_boxes_total ℕ answer 640 480

abbrev a_box : Detection ℕ
a_box = record {
  label = codes "drone";
  bbox_norm = (100, 200, 900, 1000);
  bbox_px = (64000, 96000, 576000, 480000);
}

a_box-IsBox : IsBox 640 480 a_box
unfolding thousandths parse_boxes locate_anything_setup.Regex.finditer
    locate_anything_setup.Regex.ref_run_re locate_anything_setup.Text.after block
    locate_anything_setup.Text.lstrip locate_anything_setup.Text.is_space
    locate_anything_setup.Regex.after_close strip locate_anything_setup.Regex.box_re
    locate_anything_setup.Regex.coord locate_anything_setup.Regex.number
    locate_anything_setup.Text.digit locate_anything_setup.Parsing.make_box
    locate_anything_setup.Parsing.to_px
a_box-IsBox = (parse_boxes-IsBox ℕ answer 640 480).0

abbrev hi : List ℕ
hi = 104 ∷ 105 ∷ []

abbrev hi_frame : List ℕ
hi_frame = 0 ∷ 0 ∷ 0 ∷ 2 ∷ 104 ∷ 105 ∷ []

hi_written : write_frame false hi ≡ Outcome.ok hi_frame
unfolding write_frame locate_anything_setup.Framing.pack
hi_written = refl

read_frame-write_frame_example : read_frame (hi_frame ++ hi) ≡ frame hi hi
read_frame-write_frame_example = read_frame-write_frame false hi hi_frame hi hi_written

read_frame-length_example : length hi + 4 ≤ length (hi_frame ++ hi)
read_frame-length_example = read_frame-length (hi_frame ++ hi) hi hi read_frame-write_frame_example
