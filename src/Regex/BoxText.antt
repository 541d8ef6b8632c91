-- ===== src/Regex/BoxText.antt =====
-- The text of a box match: it is matched whatever stands behind it, holds no other tag that opens,
-- and ends at its first `</box>`.
use locate_anything_setup.Prelude.{
  ℕ, ◌+◌, ◌*◌, ◌≡◌, refl, sym, ap, subst, ◌∙◌, none, some, [], ◌∷◌, ◌++◌, append_assoc, All,
  Option-cases, inl, inr, false, Bool-cases, ◌==◌, ==_iff,
}
use locate_anything_setup.Prelude.Options.{>>=-eq-some}
use locate_anything_setup.Text.{Text, after, digit}
use locate_anything_setup.Text.Strip.{after-eq-some}
use locate_anything_setup.Regex.{Corners, digits, number, coord, box_open, box_close, box_re}

abbrev pub IsDigit : ℕ → Type 0
IsDigit c = (k : ℕ) × (digit c ≡ some k)

digit_tag : digit b'<' ≡ none
unfolding digit
digit_tag = refl

digit-not_tag : (c : ℕ) → IsDigit c → (b'<' == c) ≡ false
digit-not_tag c (k, e) = elim (Bool-cases (b'<' == c)) [
  | inl h ↦
      let same : b'<' ≡ c = (==_iff b'<' c).0 h in
      (let q : none ≡ some k = sym digit_tag ∙ subst (λ d. digit d ≡ some k) (sym same) e in cc)
  | inr h ↦ h
]

some-injective : {A : Type 0} (a b : A) → some a ≡ some b → a ≡ b
some-injective a b e = cc

pair_eq : {A B : Type 0} {a c : A} {b d : B} → a ≡ c → b ≡ d → ◌≡◌ {A = A × B} (a, b) (c, d)
pair_eq p q = cc

-- A tag's number: digits between `<` and `>`.
pub data CoordText : Text → Type 0 where
  coord_text :
      (c : ℕ) (ds : Text) → IsDigit c → All IsDigit ds → CoordText (b'<' ∷ c ∷ (ds ++ b'>' ∷ []))

-- What `digits` reads are digits, and it reads them again in front of the same character.
digits-split :
    (n k x : ℕ) (t y : Text)
    → digits n t ≡ (k, x ∷ y)
    → (ds : Text) × (t ≡ ds ++ x ∷ y)
      × All IsDigit ds
      × ((z : Text) → digits n (ds ++ x ∷ z) ≡ (k, x ∷ z))
unfolding digits
digits-split n k x [] y e = let q : [] ≡ x ∷ y = ap (λ (p : ℕ × Text). p.1) e in cc
digits-split n k x (c ∷ t) y e = elim (Option-cases (digit c)) [
  | inl h ↦
      let q : (n, c ∷ t) ≡ (k, x ∷ y) = rw (h, digits) at e in
      let qn : n ≡ k = ap (λ (p : ℕ × Text). p.0) q in
      let qt : c ∷ t ≡ x ∷ y = ap (λ (p : ℕ × Text). p.1) q in
      let qx : c ≡ x = cc in
      let hx : digit x ≡ none = subst (λ d. digit d ≡ none) qx h in
      ([], qt, tt, λ z. rw (hx, digits) (ap (λ m. (m, x ∷ z)) qn))
  | inr (d, h) ↦
      let (ds, s, a, f) = digits-split (n * 10 + d) k x t y (rw (h, digits) at e) in
      (c ∷ ds, ap (◌∷◌ c) s, ((d, h), a), λ z. rw (h, digits) (f z))
]

after_char : (c : ℕ) (t r : Text) → after (c ∷ []) t ≡ some r → t ≡ c ∷ r
after_char c t r e = after-eq-some (c ∷ []) t r e

number-split :
    (n x : ℕ) (t y : Text)
    → number t ≡ some (n, x ∷ y)
    → (c : ℕ) × (ds : Text) × (t ≡ c ∷ (ds ++ x ∷ y))
      × IsDigit c
      × All IsDigit ds
      × ((z : Text) → number (c ∷ (ds ++ x ∷ z)) ≡ some (n, x ∷ z))
unfolding number
number-split n x [] y e = cc
number-split n x (c ∷ t) y e = elim (Option-cases (digit c)) [
  | inl h ↦ (let q : none ≡ some (n, x ∷ y) = rw (h, number) at e in cc)
  | inr (d, h) ↦
      let q : some (digits d t) ≡ some (n, x ∷ y) = rw (h, number) at e in
      let q' = some-injective (digits d t) (n, x ∷ y) q in
      let (ds, s, a, f) = digits-split d n x t y q' in
      (c, ds, ap (◌∷◌ c) s, (d, h), a, λ z. rw (h, number) (ap some (f z)))
]

coord-join :
    (c n : ℕ) (ds z : Text)
    → number (c ∷ (ds ++ b'>' ∷ z)) ≡ some (n, b'>' ∷ z)
    → coord (b'<' ∷ c ∷ ((ds ++ b'>' ∷ []) ++ z)) ≡ some (n, z)
unfolding coord after
coord-join c n ds z h = rw (append_assoc ds (b'>' ∷ []) z) (rw h refl)

-- `coord` reads the text of one tag, and reads it again whatever stands behind.
coord-split :
    (t r : Text) (n : ℕ)
    → coord t ≡ some (n, r)
    → (b : Text) × CoordText b × (t ≡ b ++ r) × ((z : Text) → coord (b ++ z) ≡ some (n, z))
unfolding coord
coord-split t r n e =
    let (inner, e1, e2) = >>=-eq-some (after (b'<' ∷ []) t) _ (n, r) e in
    let (p, e3, e4) = >>=-eq-some (number inner) _ (n, r) e2 in
    let (rest, e5, e6) = >>=-eq-some (after (b'>' ∷ []) p.1) _ (n, r) e4 in
    let pair : (p.0, rest) ≡ (n, r) = some-injective _ _ e6 in
    let closed : p.1 ≡ b'>' ∷ r =
      after_char b'>' p.1 rest e5 ∙ ap (λ (q : ℕ × Text). b'>' ∷ q.1) pair in
    let read : number inner ≡ some (n, b'>' ∷ r) =
      e3 ∙ ap some (pair_eq (ap (λ (q : ℕ × Text). q.0) pair) closed) in
    let (c, ds, s, dc, dds, f) = number-split n b'>' inner r read in
    (
      b'<' ∷ c ∷ (ds ++ b'>' ∷ []),
      coord_text c ds dc dds,
      after_char b'<' t inner e1
          ∙ ap (◌∷◌ b'<') (s ∙ ap (◌∷◌ c) (sym (append_assoc ds (b'>' ∷ []) r))),
      λ z. coord-join c n ds z (f z),
    )

-- `<box>`, tags, `</box>`.
pub data BoxText : Text → Type 0 where
  box_text :
      (b1 b2 b3 b4 : Text)
      → CoordText b1
      → CoordText b2
      → CoordText b3
      → CoordText b4
      → BoxText (box_open ++ (b1 ++ (b2 ++ (b3 ++ (b4 ++ box_close)))))

pub box_assoc :
    (b1 b2 b3 b4 t z : Text)
    → (b1 ++ (b2 ++ (b3 ++ (b4 ++ t)))) ++ z ≡ b1 ++ (b2 ++ (b3 ++ (b4 ++ (t ++ z))))
box_assoc b1 b2 b3 b4 t z =
    append_assoc b1 (b2 ++ (b3 ++ (b4 ++ t))) z
    ∙ ap (◌++◌ b1) (
        append_assoc b2 (b3 ++ (b4 ++ t)) z
        ∙ ap (◌++◌ b2) (append_assoc b3 (b4 ++ t) z ∙ ap (◌++◌ b3) (append_assoc b4 t z)))

box-join :
    (b1 b2 b3 b4 : Text) (x1 y1 x2 y2 : ℕ)
    → ((z : Text) → coord (b1 ++ z) ≡ some (x1, z))
    → ((z : Text) → coord (b2 ++ z) ≡ some (y1, z))
    → ((z : Text) → coord (b3 ++ z) ≡ some (x2, z))
    → ((z : Text) → coord (b4 ++ z) ≡ some (y2, z))
    → (z : Text)
    → box_re ((box_open ++ (b1 ++ (b2 ++ (b3 ++ (b4 ++ box_close))))) ++ z)
      ≡ some ((x1, y1, x2, y2), z)
unfolding box_re after
box-join b1 b2 b3 b4 x1 y1 x2 y2 f1 f2 f3 f4 z =
    rw (box_assoc b1 b2 b3 b4 box_close z) (rw (f1 _) (rw (f2 _) (rw (f3 _) (rw (f4 _) refl))))

-- A box match is the text of a box, and that text is matched whatever stands behind it.
pub box_re-split :
    (t r : Text) (g : Corners)
    → box_re t ≡ some (g, r)
    → (b : Text) × BoxText b × (t ≡ b ++ r) × ((z : Text) → box_re (b ++ z) ≡ some (g, z))
unfolding box_re
box_re-split t r g e =
    let (t0, e0, h0) = >>=-eq-some (after box_open t) _ (g, r) e in
    let (p1, e1, h1) = >>=-eq-some (coord t0) _ (g, r) h0 in
    let (p2, e2, h2) = >>=-eq-some (coord p1.1) _ (g, r) h1 in
    let (p3, e3, h3) = >>=-eq-some (coord p2.1) _ (g, r) h2 in
    let (p4, e4, h4) = >>=-eq-some (coord p3.1) _ (g, r) h3 in
    let (rest, e5, h5) = >>=-eq-some (after box_close p4.1) _ (g, r) h4 in
    let pair = some-injective ((p1.0, p2.0, p3.0, p4.0), rest) (g, r) h5 in
    let (b1, c1, s1, f1) = coord-split t0 p1.1 p1.0 e1 in
    let (b2, c2, s2, f2) = coord-split p1.1 p2.1 p2.0 e2 in
    let (b3, c3, s3, f3) = coord-split p2.1 p3.1 p3.0 e3 in
    let (b4, c4, s4, f4) = coord-split p3.1 p4.1 p4.0 e4 in
    let s5 : p4.1 ≡ box_close ++ r =
      after-eq-some box_close p4.1 rest e5 ∙ ap (λ (q : Corners × Text). box_close ++ q.1) pair in
    (
      box_open ++ (b1 ++ (b2 ++ (b3 ++ (b4 ++ box_close)))),
      box_text b1 b2 b3 b4 c1 c2 c3 c4,
      after-eq-some box_open t t0 e0
          ∙ ap (◌++◌ box_open) (
              s1
              ∙ ap (◌++◌ b1) (s2 ∙ ap (◌++◌ b2) (s3 ∙ ap (◌++◌ b3) (s4 ∙ ap (◌++◌ b4) s5)))
              ∙ sym (box_assoc b1 b2 b3 b4 box_close r)),
      λ z.
          box-join b1 b2 b3 b4 p1.0 p2.0 p3.0 p4.0 f1 f2 f3 f4 z
          ∙ ap (λ (q : Corners × Text). some (q.0, z)) pair,
    )
