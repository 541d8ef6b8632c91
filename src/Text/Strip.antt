-- ===== src/Text/Strip.antt =====
-- Laws of `strip`, `startswith` and of cutting off a last character.
use locate_anything_setup.Prelude.{
  ℕ, ◌≡◌, refl, ap, ◌∙◌, inl, inr, true, false, some, [], ◌∷◌, ◌++◌, arith, Bool-cases,
}
use locate_anything_setup.Text.{
  Text, is_space, after, starts_with, lstrip, rstrip, strip, ends_with_char, init,
}

-- A literal is found in front of whatever follows it.
pub after-append : (p t : Text) → after p (p ++ t) ≡ some t
unfolding after
after-append [] t = refl
after-append (c ∷ p) t = ground (arith, after-append p t)

-- What lies behind a literal is what was left of the text.
pub after-eq-some : (p t r : Text) → after p t ≡ some r → t ≡ p ++ r
unfolding after
after-eq-some [] t r h = ground arith
after-eq-some (c ∷ p) [] r h = cc
after-eq-some (c ∷ p) (d ∷ t) r h = ground (arith, after-eq-some p t r)

pub starts_with-append : (p t : Text) → starts_with p (p ++ t) ≡ true
unfolding starts_with
starts_with-append p t = rw (after-append p t, starts_with)

pub ends_with_char-append : (d : ℕ) (t : Text) → ends_with_char d (t ++ d ∷ []) ≡ true
unfolding ends_with_char
ends_with_char-append d [] = ground arith
ends_with_char-append d (c ∷ []) = ground arith
ends_with_char-append d (c ∷ e ∷ t) = ends_with_char-append d (e ∷ t)

pub init-append : (d : ℕ) (t : Text) → init (t ++ d ∷ []) ≡ t
unfolding init
init-append d [] = refl
init-append d (c ∷ []) = refl
init-append d (c ∷ e ∷ t) = ap (◌∷◌ c) (init-append d (e ∷ t))

rstrip-rstrip : (t : Text) → rstrip (rstrip t) ≡ rstrip t
unfolding rstrip
rstrip-rstrip [] = refl
rstrip-rstrip (c ∷ t) = ground (arith, rstrip-rstrip t)

-- What `lstrip` leaves does not begin with white space.
abbrev NoLead : Text → Type 0
NoLead [] = Unit
NoLead (c ∷ t) = is_space c ≡ false

lstrip-NoLead : (t : Text) → NoLead (lstrip t)
unfolding lstrip
lstrip-NoLead [] = tt
lstrip-NoLead (c ∷ t) = elim (Bool-cases (is_space c)) [
  | inl h ↦ rw h (lstrip-NoLead t)
  | inr h ↦ rw h h
]

lstrip-rstrip : (t : Text) → NoLead t → lstrip (rstrip t) ≡ rstrip t
unfolding lstrip rstrip
lstrip-rstrip [] h = refl
lstrip-rstrip (c ∷ t) h = ground arith

-- Stripping twice is stripping once.
pub strip-strip : (t : Text) → strip (strip t) ≡ strip t
unfolding strip
strip-strip t = ap rstrip (lstrip-rstrip (lstrip t) (lstrip-NoLead t)) ∙ rstrip-rstrip (lstrip t)
