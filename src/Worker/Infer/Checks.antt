-- ===== src/Worker/Infer/Checks.antt =====
-- The checks of a header and a payload reject with two codes only.
use locate_anything_setup.Prelude.{
  String, ◌≡◌, refl, ◌⊎◌, inl, inr, Bool, true, false, not, some, [], ◌∷◌, Option-cases, Bool-cases,
  ltb, length,
}
use locate_anything_setup.Text.{is_empty, starts_with}
use locate_anything_setup.Outcome.{Value}
use locate_anything_setup.Framing.{Bytes}
use locate_anything_setup.Worker.Reply.{Message}
use locate_anything_setup.Worker.Infer.{
  Header, get, non_empty_str, Check, pass, reject, check_then, check_request, require, required_key,
  check_prompt, check_mode, check_jpeg, payload_empty, checked_mode, no_soi,
}

-- An error code that the checks use.
abbrev pub IsCheckCode : String → Type 0
IsCheckCode c = (c ≡ "internal") ⊎ (c ≡ "invalid_image")

abbrev pub Rejects : {A : Type 0} → Check A → Type 0
Rejects (pass a) = Unit
Rejects (reject c m) = IsCheckCode c

Rejects-then :
    {A B : Type 0} (k : Check A) (f : A → Check B)
    → Rejects k
    → ((a : A) → Rejects (f a))
    → Rejects (check_then k f)
Rejects-then (pass a) f h k = k a
Rejects-then (reject c m) f h k = h

Rejects-required_key : (h : Header) (key : String) → Rejects (required_key h key)
unfolding required_key
Rejects-required_key h key = elim (Option-cases (get key h)) [
  | inl e ↦ rw (e, Rejects) (inl refl)
  | inr (v, e) ↦ rw (e, Rejects) tt
]

Rejects-check_prompt : (v : Value) → Rejects (check_prompt v)
unfolding check_prompt
Rejects-check_prompt v = elim (Option-cases (non_empty_str (some v))) [
  | inl e ↦ rw (e, Rejects) (inl refl)
  | inr (p, e) ↦
      rw (e, Rejects)
        (elim (Bool-cases (ltb 16384 (length p))) [
          | inl k ↦ rw (k, Rejects) (inl refl)
          | inr k ↦ rw (k, Rejects) tt
        ])
]

Rejects-check_mode : (v : Value) → Rejects (check_mode v)
unfolding check_mode
Rejects-check_mode v = elim (Option-cases (checked_mode v)) [
  | inl e ↦ rw (e, Rejects) (inl refl)
  | inr (m, e) ↦ rw (e, Rejects) tt
]

Rejects-require : (b : Bool) (m : Message) → Rejects (require b "invalid_image" m)
Rejects-require true m = tt
Rejects-require false m = inr refl

Rejects-check_jpeg : (jpeg : Bytes) → Rejects (check_jpeg jpeg)
unfolding check_jpeg
Rejects-check_jpeg jpeg =
    Rejects-then (require (not (is_empty jpeg)) "invalid_image" payload_empty) _
      (Rejects-require (not (is_empty jpeg)) payload_empty)
      (λ _. Rejects-require (starts_with (0xff ∷ 0xd8 ∷ 0xff ∷ []) jpeg) no_soi)

pub Rejects-check_request : (h : Header) (jpeg : Bytes) → Rejects (check_request h jpeg)
unfolding check_request
Rejects-check_request h jpeg =
    Rejects-then (required_key h "prompt") _ (Rejects-required_key h "prompt") λ pv.
      Rejects-then (required_key h "generation_mode") _ (Rejects-required_key h "generation_mode")
        λ mv.
          Rejects-then (required_key h "prompt_task") _ (Rejects-required_key h "prompt_task") λ tv.
            Rejects-then (check_prompt pv) _ (Rejects-check_prompt pv) λ p.
              Rejects-then (check_mode mv) _ (Rejects-check_mode mv)
                λ m. Rejects-then (check_jpeg jpeg) _ (Rejects-check_jpeg jpeg) λ _. tt
