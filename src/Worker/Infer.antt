-- ===== src/Worker/Infer.antt =====
-- worker/la_worker.py, `WorkerApp._infer`: the checks of a frame's header and payload, the run under
-- its timeout, and the reply.
pub mod Blame
pub mod Checks
pub mod Laws
use locate_anything_setup.Prelude.{
  ℕ, String, Bool, true, false, not, Option, none, some, List, [], ◌∷◌, length, ltb, str_eq,
  if◌then◌else◌,
}
use locate_anything_setup.Text.{Text, is_empty, starts_with}
use locate_anything_setup.Float.{Float}
use locate_anything_setup.Outcome.{
  Value, str, no_str, Cause, Exception, value_error, timed_out, Outcome, ok, raise, ◌>>=◌,
}
use locate_anything_setup.Prompts.Requests.{Mode}
use locate_anything_setup.Framing.{Bytes}
use locate_anything_setup.Inference.Config.{checked_mode}
use locate_anything_setup.Inference.Variant.{Kind, model_deviation, InferenceResult}
use locate_anything_setup.Worker.Reply.{
  Message, no_frame_id, header_key_missing, prompt_empty, prompt_too_long, mode_unknown,
  payload_empty, no_soi, error_text, deviation_text, Reply, success, frame_error, body_of,
}

-- A header that is a JSON object.
abbrev pub Header : Type 0
Header = List (String × Value)

-- `header.get(key)`
unfoldable pub get : String → Header → Option Value
get key [] = none
get key ((k, v) ∷ h) = if str_eq k key then some v else get key h

-- `isinstance(v, str) and v`
abbrev pub non_empty_str : Option Value → Option Text
non_empty_str none = none
non_empty_str (some no_str) = none
non_empty_str (some (str t)) = if is_empty t then none else some t

-- The result of a check: a value, or the code and the message of the error reply.
pub data Check (A : Type 0) : Type 0 where
  pass : A → Check A
  reject : String → Message → Check A

abbrev pub check_then : {A B : Type 0} → Check A → (A → Check B) → Check B
check_then (pass a) f = f a
check_then (reject c m) f = reject c m

abbrev pub require : Bool → String → Message → Check (Unit {0})
require true c m = pass tt
require false c m = reject c m

pub record FrameRequest : Type 0 where
  pub prompt : Text
  pub mode : Mode
  pub mode_value : Value
  pub prompt_task : Value

-- `header[key]`, once its presence is checked.
unfoldable pub required_key : Header → String → Check Value
unfolding get
required_key h key = elim (get key h) [
  | none ↦ reject "internal" (header_key_missing key)
  | some v ↦ pass v
]

unfoldable pub check_prompt : Value → Check Text
check_prompt v = elim (non_empty_str (some v)) [
  | none ↦ reject "internal" prompt_empty
  | some p ↦ if ltb 16384 (length p) then reject "internal" (prompt_too_long (length p)) else pass p
]

unfoldable pub check_mode : Value → Check Mode
unfolding checked_mode
check_mode v = elim (checked_mode v) [ none ↦ reject "internal" mode_unknown | some m ↦ pass m ]

-- The payload: not empty, and begun by FF D8 FF.
unfoldable pub check_jpeg : Bytes → Check (Unit {0})
unfolding starts_with
check_jpeg jpeg =
    check_then (require (not (is_empty jpeg)) "invalid_image" payload_empty)
      (λ _. require (starts_with (0xff ∷ 0xd8 ∷ 0xff ∷ []) jpeg) "invalid_image" no_soi)

unfoldable pub check_request : Header → Bytes → Check FrameRequest
check_request h jpeg = check_then (required_key h "prompt") λ prompt_value.
    check_then (required_key h "generation_mode") λ mode_value.
      check_then (required_key h "prompt_task") λ prompt_task.
        check_then (check_prompt prompt_value) λ prompt. check_then (check_mode mode_value) λ mode.
          check_then (check_jpeg jpeg) λ _. pass (record {
            prompt = prompt;
            mode = mode;
            mode_value = mode_value;
            prompt_task = prompt_task;
          })

-- `engine.run`, at the latency that is measured.
abbrev pub Run : Type 0 → Type 0
Run F = Bytes → Text → Value → Value → Outcome (InferenceResult F)

module _ {F : Type 0} ⦃fl : Float F⦄ where
  -- `asyncio.wait_for` around the run: what the run does, if it ends in time.
  unfoldable pub wait_for : Bool → Outcome (InferenceResult F) → Outcome (InferenceResult F)
  wait_for in_time result = if in_time then result else raise timed_out

  -- The reply to a run that has ended; a ValueError is the client's image.
  unfoldable pub reply_to : Text → Mode → F → Outcome (InferenceResult F) → Outcome (Reply F)
  unfolding body_of
  reply_to frame_id mode total_ms (raise (value_error c)) =
      frame_error frame_id "invalid_image" (error_text c)
  reply_to frame_id mode total_ms (raise e) = raise e
  reply_to frame_id mode total_ms (ok r) = elim r.kind [
    | model_deviation ↦ frame_error frame_id "model_deviation" (deviation_text r.deviation_message)
    | _ ↦ ok (success (body_of frame_id mode total_ms r))
  ]

  -- The reply to a frame whose id is known.
  unfoldable pub infer_frame : Run F → Bool → F → Text → Header → Bytes → Outcome (Reply F)
  unfolding wait_for
  infer_frame run in_time total_ms frame_id h jpeg = elim (check_request h jpeg) [
    | reject code message ↦ frame_error frame_id code message
    | pass q ↦
        reply_to frame_id q.mode total_ms
          (wait_for in_time (run jpeg q.prompt q.mode_value q.prompt_task))
  ]

  unfoldable pub infer : Run F → Bool → F → Header → Bytes → Outcome (Reply F)
  unfolding infer_frame
  infer run in_time total_ms h jpeg = elim (non_empty_str (get "frame_id" h)) [
    | none ↦ frame_error [] "internal" no_frame_id
    | some frame_id ↦ infer_frame run in_time total_ms frame_id h jpeg
  ]
