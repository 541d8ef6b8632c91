-- ===== src/Worker/Infer/Laws.antt =====
-- What a frame is replied, on every path of `_infer`.
use locate_anything_setup.Prelude.{
  String, ◌≡◌, ◌≢◌, refl, ◌⊎◌, inl, inr, Bool, true, false, Option, none, some, List, [], any,
  str_eq, Option-cases, arith, ap, ◌∙◌,
}
use locate_anything_setup.Text.{Text}
use locate_anything_setup.Float.{Float}
use locate_anything_setup.Outcome.{
  Cause, Exception, value_error, runtime_error, out_of_memory, timed_out, connection_error,
  other_error, Outcome, ok, raise,
}
use locate_anything_setup.Parsing.{Detection, Point}
use locate_anything_setup.Prompts.Requests.{Mode}
use locate_anything_setup.Framing.{Bytes}
use locate_anything_setup.Inference.Variant.{
  Kind, boxes, points, abstained, model_deviation, InferenceResult,
}
use locate_anything_setup.Worker.Reply.{
  Message, no_frame_id, Reply, error, success, capabilities, info, Body, error_codes, frame_error,
  body_of,
}
use locate_anything_setup.Worker.Infer.Checks.{IsCheckCode, Rejects, Rejects-check_request}
use locate_anything_setup.Worker.Infer.{
  Header, get, non_empty_str, Check, pass, reject, FrameRequest, check_request, Run, wait_for,
  reply_to, infer_frame, infer, deviation_text, error_text,
}

-- The id that a header carries, or the empty text.
abbrev pub known_id : Option Text → Text
known_id none = []
known_id (some i) = i

-- The list of a variant is there, and no other.
abbrev pub HasKeys : {F : Type 0} → Kind → Body F → Type 0
HasKeys {F} boxes b = ((xs : List (Detection F)) × (b.box_list ≡ some xs)) × (b.point_list ≡ none)
HasKeys {F} points b = ((xs : List (Point F)) × (b.point_list ≡ some xs)) × (b.box_list ≡ none)
HasKeys abstained b = (b.box_list ≡ none) × (b.point_list ≡ none)
HasKeys model_deviation b = ⊥

abbrev pub IsAnswer : {F : Type 0} → Text → Outcome (Reply F) → Type 0
IsAnswer i (ok (error j c m)) = (j ≡ i) × (any (str_eq c) error_codes ≡ true)
IsAnswer i (ok (success b)) = (b.frame_id ≡ i) × HasKeys b.kind b
IsAnswer i (ok capabilities) = ⊥
IsAnswer i (ok info) = ⊥
IsAnswer i (raise e) = (c : Cause) → e ≢ value_error c

module _ {F : Type 0} ⦃fl : Float F⦄ (run : Run F) (in_time : Bool) (total_ms : F) (h : Header)
    (jpeg : Bytes) where
  body_of-IsAnswer :
      (i : Text) (m : Mode) (r : InferenceResult F)
      → r.kind ≢ model_deviation
      → IsAnswer i (ok (success (body_of i m total_ms r)))
  unfolding body_of
  body_of-IsAnswer i m r n = (refl, keys r.kind refl n)
    where
      keys : (k : Kind) → r.kind ≡ k → k ≢ model_deviation → HasKeys r.kind (body_of i m total_ms r)
      keys boxes e d = rw e ((r.box_list, refl), refl)
      keys points e d = rw e ((r.point_list, refl), refl)
      keys abstained e d = rw e (refl, refl)
      keys model_deviation e d = absurd (d refl)

  -- Every way in which `_infer` ends.
  pub data Ends : Outcome (Reply F) → Type 0 where
    no_id : non_empty_str (get "frame_id" h) ≡ none → Ends (ok (error [] "internal" no_frame_id))
    rejected :
        (i : Text) (c : String) (m : Message)
        → non_empty_str (get "frame_id" h) ≡ some i
        → check_request h jpeg ≡ reject c m
        → IsCheckCode c
        → Ends (ok (error i c m))
    blamed :
        (i : Text) (q : FrameRequest) (c : Cause)
        → non_empty_str (get "frame_id" h) ≡ some i
        → check_request h jpeg ≡ pass q
        → wait_for in_time (run jpeg q.prompt q.mode_value q.prompt_task) ≡ raise (value_error c)
        → Ends (ok (error i "invalid_image" (error_text c)))
    raised :
        (q : FrameRequest) (e : Exception)
        → check_request h jpeg ≡ pass q
        → wait_for in_time (run jpeg q.prompt q.mode_value q.prompt_task) ≡ raise e
        → ((c : Cause) → e ≢ value_error c)
        → Ends (raise e)
    deviated :
        (i : Text) (q : FrameRequest) (r : InferenceResult F)
        → non_empty_str (get "frame_id" h) ≡ some i
        → check_request h jpeg ≡ pass q
        → run jpeg q.prompt q.mode_value q.prompt_task ≡ ok r
        → r.kind ≡ model_deviation
        → Ends (ok (error i "model_deviation" (deviation_text r.deviation_message)))
    succeeded :
        (i : Text) (q : FrameRequest) (r : InferenceResult F)
        → non_empty_str (get "frame_id" h) ≡ some i
        → check_request h jpeg ≡ pass q
        → run jpeg q.prompt q.mode_value q.prompt_task ≡ ok r
        → r.kind ≢ model_deviation
        → Ends (ok (success (body_of i q.mode total_ms r)))

  wait_for-eq-ok :
      (m : Outcome (InferenceResult F)) (r : InferenceResult F)
      → wait_for in_time m ≡ ok r
      → m ≡ ok r
  unfolding wait_for
  wait_for-eq-ok m r e = ground arith

  frame_error_known :
      (i : Text) (c : String) (m : Message)
      → any (str_eq c) error_codes ≡ true
      → frame_error {F = F} i c m ≡ ok (error i c m)
  unfolding frame_error
  frame_error_known i c m k = rw k

  check_code_known : (c : String) → IsCheckCode c → any (str_eq c) error_codes ≡ true
  check_code_known c (inl e) = rw e
  check_code_known c (inr e) = rw e

  Ends-kind :
      (i : Text) (q : FrameRequest) (r : InferenceResult F) (k : Kind)
      → r.kind ≡ k
      → non_empty_str (get "frame_id" h) ≡ some i
      → check_request h jpeg ≡ pass q
      → run jpeg q.prompt q.mode_value q.prompt_task ≡ ok r
      → Ends (reply_to i q.mode total_ms (ok r))
  unfolding reply_to
  Ends-kind i q r model_deviation k e c o = rw k (
      rw (frame_error_known i "model_deviation" (deviation_text r.deviation_message) refl)
        (deviated i q r e c o k))
  Ends-kind i q r _ k e c o = rw k (succeeded i q r e c o (λ n. cc))

  Ends-reply :
      (i : Text) (q : FrameRequest) (m : Outcome (InferenceResult F))
      → wait_for in_time (run jpeg q.prompt q.mode_value q.prompt_task) ≡ m
      → non_empty_str (get "frame_id" h) ≡ some i
      → check_request h jpeg ≡ pass q
      → Ends (reply_to i q.mode total_ms m)
  unfolding reply_to
  Ends-reply i q (ok r) w e c = Ends-kind i q r r.kind refl e c (wait_for-eq-ok _ r w)
  Ends-reply i q (raise (value_error x)) w e c =
      rw (frame_error_known i "invalid_image" (error_text x) refl) (blamed i q x e c w)
  Ends-reply i q (raise (runtime_error x)) w e c = raised q (runtime_error x) c w (λ y n. cc)
  Ends-reply i q (raise out_of_memory) w e c = raised q out_of_memory c w (λ y n. cc)
  Ends-reply i q (raise timed_out) w e c = raised q timed_out c w (λ y n. cc)
  Ends-reply i q (raise connection_error) w e c = raised q connection_error c w (λ y n. cc)
  Ends-reply i q (raise (other_error x)) w e c = raised q (other_error x) c w (λ y n. cc)

  Ends-frame :
      (i : Text)
      → non_empty_str (get "frame_id" h) ≡ some i
      → (k : Check FrameRequest) → check_request h jpeg ≡ k
      → Rejects k
      → Ends (infer_frame run in_time total_ms i h jpeg)
  unfolding infer_frame
  Ends-frame i e (pass q) c _ = rw (c, infer_frame) (Ends-reply i q _ refl e c)
  Ends-frame i e (reject code m) c x =
      rw (c, infer_frame)
        (rw (frame_error_known i code m (check_code_known code x)) (rejected i code m e c x))

  -- `_infer` ends in one of six ways: no id, a check that rejects, a ValueError of the run that is
  -- blamed on the image, another exception of the run passed on, a deviation, or a success.
  pub infer-Ends : Ends (infer run in_time total_ms h jpeg)
  unfolding infer
  infer-Ends = elim (Option-cases (non_empty_str (get "frame_id" h))) [
    | inl e ↦ rw (e, infer) (rw (frame_error_known [] "internal" no_frame_id refl) (no_id e))
    | inr (i, e) ↦ rw (e, infer) (Ends-frame i e _ refl (Rejects-check_request h jpeg))
  ]

  Ends-IsAnswer :
      (o : Outcome (Reply F)) → Ends o → IsAnswer (known_id (non_empty_str (get "frame_id" h))) o
  Ends-IsAnswer o (no_id e) = rw e (refl, refl)
  Ends-IsAnswer o (rejected i c m e k x) = rw e (refl, check_code_known c x)
  Ends-IsAnswer o (blamed i q c e k w) = rw e (refl, refl)
  Ends-IsAnswer o (raised q e k w n) = n
  Ends-IsAnswer o (deviated i q r e k w n) = rw e (refl, refl)
  Ends-IsAnswer o (succeeded i q r e k w n) = rw e (body_of-IsAnswer i q.mode r n)

  -- Whatever the header, the payload and the run: a reply of `_infer` carries the id of the header,
  -- or the empty text where it has none; an error has one of the four codes; a success is no
  -- deviation and has the list of its own variant and no other; and a ValueError never leaves
  -- `_infer`.
  pub infer-IsAnswer :
      IsAnswer (known_id (non_empty_str (get "frame_id" h))) (infer run in_time total_ms h jpeg)
  infer-IsAnswer = Ends-IsAnswer _ infer-Ends

  wait_for-eq-raise :
      (m : Outcome (InferenceResult F)) (e : Exception)
      → wait_for in_time m ≡ raise e
      → ((in_time ≡ false) × (e ≡ timed_out)) ⊎ ((in_time ≡ true) × (m ≡ raise e))
  unfolding wait_for
  wait_for-eq-raise m e w = ground arith

  Ends-raises :
      (o : Outcome (Reply F)) (e : Exception)
      → Ends o
      → o ≡ raise e
      → (q : FrameRequest) × (check_request h jpeg ≡ pass q)
        × (((in_time ≡ false) × (e ≡ timed_out))
            ⊎ ((in_time ≡ true) × (run jpeg q.prompt q.mode_value q.prompt_task ≡ raise e)))
  Ends-raises o e (no_id x) p = cc
  Ends-raises o e (rejected i c m x k y) p = cc
  Ends-raises o e (blamed i q c x k w) p = cc
  Ends-raises o e (raised q d k w n) p =
      let s : d ≡ e = cc in
      (q, k, wait_for-eq-raise (run jpeg q.prompt q.mode_value q.prompt_task) e (w ∙ ap raise s))
  Ends-raises o e (deviated i q r x k w n) p = cc
  Ends-raises o e (succeeded i q r x k w n) p = cc

  -- An exception that leaves `_infer` comes of a request that passed every check, and is the
  -- timeout of a run that was not in time, or what the run raised in time.
  pub infer_raises :
      (e : Exception)
      → infer run in_time total_ms h jpeg ≡ raise e
      → (q : FrameRequest) × (check_request h jpeg ≡ pass q)
        × (((in_time ≡ false) × (e ≡ timed_out))
            ⊎ ((in_time ≡ true) × (run jpeg q.prompt q.mode_value q.prompt_task ≡ raise e)))
  infer_raises e x = Ends-raises _ e infer-Ends x
