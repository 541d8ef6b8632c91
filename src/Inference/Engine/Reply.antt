-- ===== src/Inference/Engine/Reply.antt =====
-- What the reply of a run says of the image and of the model's answer.
use locate_anything_setup.Prelude.{
  ℕ, ◌≡◌, sym, ap, ◌∙◌, ◌+◌, ◌<◌, length, Option, some, arith, subst,
}
use locate_anything_setup.Text.{Text}
use locate_anything_setup.Float.{Float}
use locate_anything_setup.Outcome.{Value, ok, some_or_raise, >>=-eq-ok, value_error, no_plan}
use locate_anything_setup.Prompts.{Task}
use locate_anything_setup.Pixel.{ImageResize, plan_resize, ceil_to_grid}
use locate_anything_setup.Inference.Config.{GenConfig}
use locate_anything_setup.Inference.Image.{Bytes, Pil, decode_image, size_gates}
use locate_anything_setup.Inference.Image.Laws.{size_gates-plan_resize}
use locate_anything_setup.Inference.Variant.{
  InferenceResult, Geometry, resolve, report, is_truncated,
}
use locate_anything_setup.Inference.Variant.Laws.{
  WellFormed, resolve-WellFormed, resolve-total, total,
}
use locate_anything_setup.Inference.Variant.Keeps.{resolve-SameFrame}
use locate_anything_setup.Inference.Engine.{
  Upstream, task_of, point_label, parse_answer, blank_result, load_image, run, answer_of,
}
use locate_anything_setup.Inference.Engine.Laws.{
  run-Ran, some_or_raise-eq-ok, check_arguments-eq-ok,
}

module _ {F : Type 0} ⦃fl : Float F⦄ where
  plan_resize-positive :
      (w h : ℕ) (p : ImageResize F) → plan_resize w h ≡ some p → (0 < w) × (0 < h)
  unfolding plan_resize
  plan_resize-positive w h p e = ground arith

module _ {Img Profile Vision Inputs Tokens F : Type 0} ⦃fl : Float F⦄ (pil : Pil Img Profile)
    (up : Upstream Img Vision Inputs Tokens F) where
  -- An image that is loaded is the decoded one, passes the gates, and has a plan that scales nothing
  -- down.
  load_image-eq-ok :
      (jpeg : Bytes) (image : Img) (plan : ImageResize F)
      → load_image pil up jpeg ≡ ok (image, plan)
      → (decode_image pil jpeg ≡ ok image)
        × (size_gates (pil.width image) (pil.height image) ≡ ok tt)
        × (plan.dst_w ≡ ceil_to_grid (pil.width image))
        × (plan.dst_h ≡ ceil_to_grid (pil.height image))
  unfolding load_image
  load_image-eq-ok jpeg image plan e =
      let (i, decoded, e1) = >>=-eq-ok (decode_image pil jpeg) _ _ e in
      let (u, gated, e2) = >>=-eq-ok (size_gates (pil.width i) (pil.height i)) _ _ e1 in
      let (p, planned, e3) =
        >>=-eq-ok (some_or_raise (plan_resize (pil.width i) (pil.height i)) (value_error no_plan)) _
          _ e2 in
      let planned' = some_or_raise-eq-ok _ (value_error no_plan) p planned in
      let (pw, ph) = plan_resize-positive (pil.width i) (pil.height i) p planned' in
      let (q, made, dw, dh, sw, sh) =
        size_gates-plan_resize (pil.width i) (pil.height i) pw ph gated in
      let same_image : i ≡ image = cc in
      let same_plan : q ≡ plan = cc in
      (
        decoded ∙ ap ok same_image,
        subst (λ j. size_gates (pil.width j) (pil.height j) ≡ ok tt) same_image gated,
        sym (ap (λ (x : ImageResize F). x.dst_w) same_plan)
            ∙ dw
            ∙ ap (λ j. ceil_to_grid (pil.width j)) same_image,
        sym (ap (λ (x : ImageResize F). x.dst_h) same_plan)
            ∙ dh
            ∙ ap (λ j. ceil_to_grid (pil.height j)) same_image,
      )

  reply_fields :
      (t : Task) (g : Geometry F) (answer : Text) (w h : ℕ) (plan : ImageResize F) (latency : F)
      → ((resolve t g (blank_result answer w h plan latency)).raw_answer ≡ answer)
        × ((resolve t g (blank_result answer w h plan latency)).model_output_truncated
            ≡ is_truncated answer)
        × ((resolve t g (blank_result answer w h plan latency)).image_size ≡ (w, h))
        × ((resolve t g (blank_result answer w h plan latency)).resize_plan ≡ report plan)
  unfolding blank_result
  reply_fields t g answer w h plan latency =
      let (sa, st, sl, ss, sp) = resolve-SameFrame t g (blank_result answer w h plan latency) in
      (sa, st, ss, sp)

  -- The result of a `run` that returns: it is of the form of its variant; it is for the task that
  -- was named; its boxes and points and the number it counts as dropped are all the geometry that
  -- the parsers find in the answer it quotes, at the size it states; it is marked as cut off
  -- exactly if that answer does not end in the end marker; the size passes the gates; and the plan
  -- it reports has the next multiples of 28 for sides.
  pub run-reply :
      (cfg : GenConfig F) (latency : F) (jpeg : Bytes) (prompt : Text) (mode prompt_task : Value)
      (r : InferenceResult F)
      → run pil up cfg latency jpeg prompt mode prompt_task ≡ ok r
      → WellFormed r
        × ((task : Task) × (label : Option Text) × (task_of prompt_task ≡ some task)
            × (point_label task prompt ≡ ok label)
            × (length r.box_list + length r.point_list + r.deviations_dropped
                ≡ total {F = F} (parse_answer r.raw_answer r.image_size.0 r.image_size.1 label)))
        × (r.model_output_truncated ≡ is_truncated r.raw_answer)
        × (size_gates r.image_size.0 r.image_size.1 ≡ ok tt)
        × (r.resize_plan.dst_w ≡ ceil_to_grid r.image_size.0)
        × (r.resize_plan.dst_h ≡ ceil_to_grid r.image_size.1)
  unfolding report
  run-reply cfg latency jpeg prompt mode prompt_task r e =
      let ran = run-Ran pil up cfg latency jpeg prompt mode prompt_task r e in
      let (decoded, gated, dw, dh) = load_image-eq-ok jpeg ran.image ran.plan ran.loaded in
      let w = pil.width ran.image in
      let h = pil.height ran.image in
      let answer = answer_of pil up ran.out in
      let g = parse_answer answer w h ran.label in
      let blank = blank_result answer w h ran.plan latency in
      let (sa, st, ss, sp) = reply_fields ran.task g answer w h ran.plan latency in
      rw ran.result (
        resolve-WellFormed ran.task g blank,
        (
          ran.task,
          ran.label,
          check_arguments-eq-ok jpeg prompt prompt_task ran.task ran.checked,
          ran.labelled,
          rw (sa, ss) (resolve-total ran.task g blank),
        ),
        st ∙ ap is_truncated (sym sa),
        rw ss gated,
        rw (ss, sp, report) dw,
        rw (ss, sp, report) dh,
      )
