-- ===== src/Inference/Engine/NoLoss.antt =====
-- From the model's answer to the reply of a run: no box is lost on the way.
use locate_anything_setup.Prelude.{ℕ, ◌≡◌, ◌+◌, ◌≤◌, refl, length, arith}
use locate_anything_setup.Text.{Text}
use locate_anything_setup.Float.{Float}
use locate_anything_setup.Outcome.{Value, ok}
use locate_anything_setup.Regex.{box_re, finditer}
use locate_anything_setup.Parsing.Accounts.{parse_boxes_total}
use locate_anything_setup.Inference.Config.{GenConfig}
use locate_anything_setup.Inference.Image.{Bytes, Pil}
use locate_anything_setup.Inference.Variant.{InferenceResult, abstained}
use locate_anything_setup.Inference.Variant.Laws.{
  total, WellFormed, has_boxes, has_points, is_abstained, is_deviation,
}
use locate_anything_setup.Inference.Engine.{Upstream, parse_answer, run, Option}
use locate_anything_setup.Inference.Engine.Reply.{run-reply}

module _ (F : Type 0) ⦃fl : Float F⦄ where
  boxes_within_total :
      (answer : Text) (w h : ℕ) (label : Option Text)
      → length (finditer box_re answer) ≤ total {F = F} (parse_answer answer w h label)
  unfolding parse_answer
  boxes_within_total answer w h label = omega (arith, parse_boxes_total F answer w h)

module _ {Img Profile Vision Inputs Tokens F : Type 0} ⦃fl : Float F⦄ (pil : Pil Img Profile)
    (up : Upstream Img Vision Inputs Tokens F) where
  no_geometry :
      (r : InferenceResult F)
      → WellFormed r
      → r.kind ≡ abstained
      → length r.box_list + length r.point_list + r.deviations_dropped ≡ 0
  no_geometry r (has_boxes k n p d) e = cc
  no_geometry r (has_points k n p d) e = cc
  no_geometry r (is_abstained k b p d n) e = rw (b, p, n) refl
  no_geometry r (is_deviation m k b p d n l) e = cc

  -- In the result of a run, boxes, points and the number counted as dropped together are at least
  -- as many as the box matches in the raw answer: none is lost without being counted.
  pub run-boxes_kept :
      (cfg : GenConfig F) (latency : F) (jpeg : Bytes) (prompt : Text) (mode prompt_task : Value)
      (r : InferenceResult F)
      → run pil up cfg latency jpeg prompt mode prompt_task ≡ ok r
      → length (finditer box_re r.raw_answer)
        ≤ length r.box_list + length r.point_list + r.deviations_dropped
  run-boxes_kept cfg latency jpeg prompt mode prompt_task r e =
      let (task, label, named, labelled, count) =
        (run-reply pil up cfg latency jpeg prompt mode prompt_task r e).1 in
      omega (arith, count, boxes_within_total F r.raw_answer r.image_size.0 r.image_size.1 label)

  -- Where a run abstains, its raw answer has no box match.
  pub run-abstained :
      (cfg : GenConfig F) (latency : F) (jpeg : Bytes) (prompt : Text) (mode prompt_task : Value)
      (r : InferenceResult F)
      → run pil up cfg latency jpeg prompt mode prompt_task ≡ ok r
      → r.kind ≡ abstained
      → length (finditer box_re r.raw_answer) ≡ 0
  run-abstained cfg latency jpeg prompt mode prompt_task r e k =
      let wf = (run-reply pil up cfg latency jpeg prompt mode prompt_task r e).0 in
      omega (arith, no_geometry r wf k, run-boxes_kept cfg latency jpeg prompt mode prompt_task r e)
