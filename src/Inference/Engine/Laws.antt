-- ===== src/Inference/Engine/Laws.antt =====
-- What a run that returns has done, step by step.
use locate_anything_setup.Prelude.{
  ◌≡◌, refl, Bool, true, false, not, Option, none, some, arith, ◌∙◌,
}
use locate_anything_setup.Text.{Text}
use locate_anything_setup.Float.{Float}
use locate_anything_setup.Outcome.{
  Value, Outcome, ok, Exception, ensure, some_or_raise, ◌>>◌, >>=-eq-ok,
}
use locate_anything_setup.Prompts.{Task}
use locate_anything_setup.Pixel.{ImageResize}
use locate_anything_setup.Inference.Config.{GenConfig, to_kwargs}
use locate_anything_setup.Inference.Image.{Bytes, Pil}
use locate_anything_setup.Inference.Variant.{InferenceResult, resolve}
use locate_anything_setup.Inference.Engine.{
  Generated, Upstream, task_of, check_arguments, point_label, parse_answer, blank_result,
  load_image, render, answer_of, run, is_empty, value_error, empty_prompt, unknown_task, empty_jpeg,
}

pub some_or_raise-eq-ok :
    {A : Type 0} (o : Option A) (e : Exception) (a : A) → some_or_raise o e ≡ ok a → o ≡ some a
some_or_raise-eq-ok none e a h = cc
some_or_raise-eq-ok (some b) e a h = cc

pub ensure-eq-ok :
    {A : Type 0} (b : Bool) (e : Exception) (m : Outcome A) (a : A)
    → (ensure b e >> m) ≡ ok a
    → (b ≡ true) × (m ≡ ok a)
ensure-eq-ok true e m a h = (refl, h)
ensure-eq-ok false e m a h = cc

pub check_arguments-eq-ok :
    (jpeg : Bytes) (prompt : Text) (v : Value) (t : Task)
    → check_arguments jpeg prompt v ≡ ok t
    → task_of v ≡ some t
unfolding check_arguments
check_arguments-eq-ok jpeg prompt v t h =
    let (a, h1) = ensure-eq-ok (not (is_empty prompt)) (value_error empty_prompt) _ t h in
    let (u, e, h2) = >>=-eq-ok (some_or_raise (task_of v) (value_error unknown_task)) _ t h1 in
    let (b, h3) = ensure-eq-ok (not (is_empty jpeg)) (value_error empty_jpeg) (ok u) t h2 in
    some_or_raise-eq-ok (task_of v) (value_error unknown_task) t (e ∙ h3)

module _ {Img Profile Vision Inputs Tokens F : Type 0} ⦃fl : Float F⦄ (pil : Pil Img Profile)
    (up : Upstream Img Vision Inputs Tokens F) (cfg : GenConfig F) (latency : F) (jpeg : Bytes)
    (prompt : Text) (mode prompt_task : Value) where
  -- The values that the steps of a run have passed on.
  pub record Ran (r : InferenceResult F) : Type 0 where
    pub task : Task
    pub image : Img
    pub plan : ImageResize F
    pub out : Generated Tokens
    pub label : Option Text
    pub checked : check_arguments jpeg prompt prompt_task ≡ ok task
    pub loaded : load_image pil up jpeg ≡ ok (image, plan)
    pub labelled : point_label task prompt ≡ ok label
    pub result :
        r
        ≡ resolve task
            (parse_answer (answer_of pil up out) (pil.width image) (pil.height image) label)
            (blank_result (answer_of pil up out) (pil.width image) (pil.height image) plan latency)

  pub run-Ran :
      (r : InferenceResult F) → run pil up cfg latency jpeg prompt mode prompt_task ≡ ok r → Ran r
  unfolding run
  run-Ran r h =
      let (task, checked, h1) = >>=-eq-ok (check_arguments jpeg prompt prompt_task) _ r h in
      let (x, loaded, h2) = >>=-eq-ok (load_image pil up jpeg) _ r h1 in
      let (inputs, rendered, h3) = >>=-eq-ok (render pil up x.0 prompt) _ r h2 in
      let (kwargs, set, h4) = >>=-eq-ok (to_kwargs cfg mode) _ r h3 in
      let (out, generated, h5) = >>=-eq-ok (up.generate inputs kwargs) _ r h4 in
      let (label, labelled, h6) = >>=-eq-ok (point_label task prompt) _ r h5 in
      record {
        task = task;
        image = x.0;
        plan = x.1;
        out = out;
        label = label;
        checked = checked;
        loaded = loaded;
        labelled = labelled;
        result = ground arith;
      }
