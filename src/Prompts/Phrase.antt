-- ===== src/Prompts/Phrase.antt =====
-- `point_phrase` against `point_to`.
use locate_anything_setup.Prelude.{◌≡◌, ap, ◌∙◌, arith, true, false, [], ◌∷◌, ◌++◌}
use locate_anything_setup.Text.{Text, strip, is_empty, ends_with_char, init}
use locate_anything_setup.Text.Strip.{ends_with_char-append, init-append}
use locate_anything_setup.Prompts.{
  ok, point_prefix, fill, with_phrase, point_to, point_body, point_phrase,
}
use locate_anything_setup.Prompts.Classify.{with_phrase-eq-ok}

with_phrase_slot : (prefix t p : Text) → with_phrase prefix t ≡ ok p → is_empty (strip t) ≡ false
unfolding with_phrase
with_phrase_slot prefix t p h = ground arith

point_body-append : (t : Text) → is_empty t ≡ false → point_body (t ++ b'.' ∷ []) ≡ ok t
unfolding point_body
point_body-append t h = rw (ends_with_char-append b'.' t, init-append b'.' t, h)

-- `point_phrase` of a prompt that `point_to` made is the phrase that it was made of, stripped.
pub point_phrase-point_to : (t p : Text) → point_to t ≡ ok p → point_phrase p ≡ ok (strip t)
unfolding point_to point_phrase
point_phrase-point_to t p h =
    rw (with_phrase-eq-ok point_prefix t p h)
      (point_body-append (strip t) (with_phrase_slot point_prefix t p h))

append-init : (t : Text) → ends_with_char b'.' t ≡ true → init t ++ b'.' ∷ [] ≡ t
unfolding init ends_with_char
append-init [] h = cc
append-init (c ∷ []) h = ground arith
append-init (c ∷ d ∷ t) h = ap (◌∷◌ c) (append-init (d ∷ t) h)

point_body-eq-ok :
    (body t : Text)
    → point_body body ≡ ok t
    → ends_with_char b'.' body ≡ true
    → t ++ b'.' ∷ [] ≡ body
unfolding point_body
point_body-eq-ok body t h e = ground (arith, append-init body)

point_body_slot : (body t : Text) → point_body body ≡ ok t → is_empty t ≡ false
unfolding point_body
point_body_slot body t h = ground arith

with_phrase-stripped :
    (prefix t : Text) → is_empty t ≡ false → strip t ≡ t → with_phrase prefix t ≡ ok (fill prefix t)
unfolding with_phrase
with_phrase-stripped prefix t h s = rw h (rw s (rw h))

-- A point prompt whose body ends with a period, and whose phrase needs no stripping, is made again
-- by `point_to` of its phrase.
pub point_to-point_phrase :
    (body t : Text)
    → point_phrase (point_prefix ++ body) ≡ ok t
    → strip t ≡ t
    → ends_with_char b'.' body ≡ true
    → point_to t ≡ ok (point_prefix ++ body)
unfolding point_to point_phrase
point_to-point_phrase body t h s e =
    with_phrase-stripped point_prefix t (point_body_slot body t h) s
    ∙ ap (λ (x : Text). ok (point_prefix ++ x)) (point_body-eq-ok body t h e)
