-- ===== src/Regex/Blocks.antt =====
-- The repetition of blocks is run to its end: behind it no block stands.
use locate_anything_setup.Prelude.{
  ℕ, zero, suc, ◌+◌, ◌≤◌, ◌<◌, ◌≡◌, refl, none, some, [], ◌∷◌, length, length-append, arith,
  Option-cases, inl, inr, Bool-cases, sym,
}
use locate_anything_setup.Prelude.Options.{>>=-eq-some}
use locate_anything_setup.Text.{Text, after, lstrip, is_space}
use locate_anything_setup.Text.Strip.{after-eq-some}
use locate_anything_setup.Regex.{after_close, box_open, box_close, span, block, blocks}

after-length : (l t r : Text) → after l t ≡ some r → length t ≡ length l + length r
after-length l t r e = rw (after-eq-some l t r e) (length-append l r)

after_close-length : (t r : Text) → after_close t ≡ some r → length r < length t
unfolding after_close
after_close-length [] r e = cc
after_close-length (c ∷ t) r e = elim (Option-cases (after box_close (c ∷ t))) [
  | inl n ↦
      let q : after_close t ≡ some r = rw (n, after_close) at e in
      omega (arith, after_close-length t r q)
  | inr (s, n) ↦
      let q : some s ≡ some r = rw (n, after_close) at e in
      let same : s ≡ r = cc in rw (sym same) (omega (arith, after-length box_close (c ∷ t) s n))
]

span-length : (t r : Text) → span t ≡ some r → length r < length t
unfolding span
span-length t r e =
    let (s, e1, e2) = >>=-eq-some (after box_open t) after_close r e in
    omega (arith, after-length box_open t s e1, after_close-length s r e2)

lstrip-length : (t : Text) → length (lstrip t) ≤ length t
unfolding lstrip
lstrip-length [] = omega arith
lstrip-length (c ∷ t) = elim (Bool-cases (is_space c)) [
  | inl e ↦ rw e (omega (arith, lstrip-length t))
  | inr e ↦ rw e (omega arith)
]

-- A block takes something.
pub block-length : (t r : Text) → block t ≡ some r → length r < length t
unfolding block
block-length t r e = omega (arith, span-length (lstrip t) r e, lstrip-length t)

block-nil : block [] ≡ none
unfolding block lstrip span after
block-nil = refl

-- With the length of the text as fuel, the repetition of blocks in the pattern of a labelled run
-- goes on until no block follows.
pub blocks-end : (fuel : ℕ) (t : Text) → length t ≤ fuel → block (blocks fuel t) ≡ none
unfolding blocks
blocks-end zero [] h = block-nil
blocks-end zero (c ∷ t) h = elim (let no : ⊥ = omega arith in no) [ ]
blocks-end (suc fuel) t h = elim (Option-cases (block t)) [
  | inl e ↦ rw (e, blocks) e
  | inr (r, e) ↦ rw (e, blocks) (blocks-end fuel r (omega (arith, block-length t r e)))
]

-- More fuel changes nothing.
pub blocks-fuel : (m n : ℕ) (t : Text) → length t ≤ m → length t ≤ n → blocks m t ≡ blocks n t
unfolding blocks
blocks-fuel zero zero t h k = refl
blocks-fuel zero (suc n) [] h k = rw (block-nil, blocks) refl
blocks-fuel (suc m) zero [] h k = rw (block-nil, blocks) refl
blocks-fuel zero (suc n) (c ∷ t) h k = elim (let no : ⊥ = omega arith in no) [ ]
blocks-fuel (suc m) zero (c ∷ t) h k = elim (let no : ⊥ = omega arith in no) [ ]
blocks-fuel (suc m) (suc n) t h k = elim (Option-cases (block t)) [
  | inl e ↦ rw (e, blocks) refl
  | inr (r, e) ↦
      let l = block-length t r e in rw (e, blocks) (blocks-fuel m n r (omega arith) (omega arith))
]
