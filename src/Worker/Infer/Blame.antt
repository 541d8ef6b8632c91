-- ===== src/Worker/Infer/Blame.antt =====
-- The checks of `_infer` and of `run` met: which faults of the IPC contract the checks let through, and
-- what the reply to them says.
use locate_anything_setup.Prelude.{◌≡◌, refl, ap, ◌∙◌, true, false, none, some, ◌∷◌, [], arith, sym}
use locate_anything_setup.Text.{Text, is_empty}
use locate_anything_setup.Float.{Float}
use locate_anything_setup.Outcome.{Value, str, no_str, ok, raise, value_error, unknown_task}
use locate_anything_setup.Framing.{Bytes}
use locate_anything_setup.Inference.Config.{GenConfig}
use locate_anything_setup.Inference.Image.{Pil}
use locate_anything_setup.Inference.Engine.{Upstream, task_of, check_arguments, run}
use locate_anything_setup.Worker.Reply.{error, error_text, frame_error}
use locate_anything_setup.Worker.Infer.{
  Header, get, non_empty_str, Check, pass, reject, check_then, required_key, check_prompt,
  check_mode, check_jpeg, FrameRequest, check_request, wait_for, reply_to, infer_frame, infer,
}

check_then-eq-pass :
    {A B : Type 0} (c : Check A) (f : A → Check B) (b : B)
    → check_then c f ≡ pass b
    → (a : A) × (c ≡ pass a) × (f a ≡ pass b)
check_then-eq-pass (pass a) f b h = (a, refl, h)
check_then-eq-pass (reject c m) f b h = cc

check_prompt-eq-pass : (v : Value) (p : Text) → check_prompt v ≡ pass p → is_empty p ≡ false
unfolding check_prompt
check_prompt-eq-pass no_str p h = cc
check_prompt-eq-pass (str []) p h = cc
check_prompt-eq-pass (str (c ∷ t)) p h =
    let same : c ∷ t ≡ p = ground arith in sym (ap is_empty same)

-- The prompt of a request that passes the checks is not empty.
check_request-prompt :
    (h : Header) (jpeg : Bytes) (q : FrameRequest)
    → check_request h jpeg ≡ pass q
    → is_empty q.prompt ≡ false
unfolding check_request
check_request-prompt h jpeg q e =
    let (v, e0, e1) = check_then-eq-pass (required_key h "prompt") _ q e in
    let (m, e2, e3) = check_then-eq-pass (required_key h "generation_mode") _ q e1 in
    let (t, e4, e5) = check_then-eq-pass (required_key h "prompt_task") _ q e3 in
    let (p, e6, e7) = check_then-eq-pass (check_prompt v) _ q e5 in
    let (k, e8, e9) = check_then-eq-pass (check_mode m) _ q e7 in
    let (u, e10, e11) = check_then-eq-pass (check_jpeg jpeg) _ q e9 in
    let same : p ≡ q.prompt = ap unwrap e11 in sym (ap is_empty same) ∙ check_prompt-eq-pass v p e6
  where
    unwrap : Check FrameRequest → Text
    unwrap (pass r) = r.prompt
    unwrap (reject c m) = []

module _ {Img Profile Vision Inputs Tokens F : Type 0} ⦃fl : Float F⦄ (pil : Pil Img Profile)
    (up : Upstream Img Vision Inputs Tokens F) (cfg : GenConfig F) (latency : F) where
  run-unknown_task :
      (jpeg : Bytes) (prompt : Text) (mode prompt_task : Value)
      → is_empty prompt ≡ false
      → task_of prompt_task ≡ none
      → run pil up cfg latency jpeg prompt mode prompt_task ≡ raise (value_error unknown_task)
  unfolding run check_arguments
  run-unknown_task jpeg prompt mode prompt_task e n = rw (e, check_arguments) (rw n refl)

  -- A request that passes every check of `_infer`, whose run ends in time, and that names none of
  -- the seven tasks is answered `invalid_image`.
  pub infer-unknown_task :
      (total_ms : F) (h : Header) (jpeg : Bytes) (frame_id : Text) (q : FrameRequest)
      → non_empty_str (get "frame_id" h) ≡ some frame_id
      → check_request h jpeg ≡ pass q
      → task_of q.prompt_task ≡ none
      → infer (run pil up cfg latency) true total_ms h jpeg
        ≡ ok (error frame_id "invalid_image" (error_text unknown_task))
  unfolding infer infer_frame reply_to wait_for frame_error
  infer-unknown_task total_ms h jpeg frame_id q i c n =
      rw (i, infer)
        (rw (c, infer_frame)
          (rw
            (run-unknown_task jpeg q.prompt q.mode_value q.prompt_task
              (check_request-prompt h jpeg q c) n)
            refl))
