-- ===== src/Regex/Untagged.antt =====
-- Text in which no tag of a kind opens, whatever stands behind it.
use locate_anything_setup.Prelude.{
  ℕ, ◌+◌, ◌≡◌, refl, sym, ap, subst, ◌∙◌, none, some, [], ◌∷◌, ◌++◌, append_assoc, All, arith, inl,
  inr, false, Bool-cases, ◌==◌, ==_iff, length,
}
use locate_anything_setup.Text.{Text, after, digit, codes}
use locate_anything_setup.Regex.{Matcher, box_open, box_close, after_close, find_from}
use locate_anything_setup.Regex.BoxText.{
  IsDigit, CoordText, coord_text, BoxText, box_text, box_assoc,
}

-- At no place of the text `<` stands in front of the character.
pub data Untagged (e : ℕ) : Text → Type 0 where
  untagged_nil : Untagged e []
  untagged_cons :
      {c : ℕ} {b : Text}
      → ((l z : Text) → after (b'<' ∷ e ∷ l) (c ∷ (b ++ z)) ≡ none)
      → Untagged e b
      → Untagged e (c ∷ b)

module _ (e : ℕ) where
  pub Untagged-append : (a b : Text) → Untagged e a → Untagged e b → Untagged e (a ++ b)
  Untagged-append [] b u v = v
  Untagged-append (c ∷ a) b (untagged_cons f u) v =
      untagged_cons (λ l z. rw (append_assoc a b z) (f l (b ++ z))) (Untagged-append a b u v)

  -- A character that is no `<` opens nothing.
  after-other : (c : ℕ) (l t : Text) → (b'<' == c) ≡ false → after (b'<' ∷ e ∷ l) (c ∷ t) ≡ none
  unfolding after
  after-other c l t h = rw h refl

  pub Untagged-other : (c : ℕ) (b : Text) → (b'<' == c) ≡ false → Untagged e b → Untagged e (c ∷ b)
  Untagged-other c b h u = untagged_cons (λ l z. after-other c l (b ++ z) h) u

  after-second :
      (c : ℕ) (l t : Text) → (e == c) ≡ false → after (b'<' ∷ e ∷ l) (b'<' ∷ c ∷ t) ≡ none
  unfolding after
  after-second c l t h = rw h refl

  -- Nor does a `<` in front of another character.
  pub Untagged-second :
      (c : ℕ) (b : Text) → (e == c) ≡ false → Untagged e (c ∷ b) → Untagged e (b'<' ∷ c ∷ b)
  Untagged-second c b h u = untagged_cons (λ l z. after-second c l (b ++ z) h) u

  digit-other : (d c : ℕ) → digit d ≡ none → IsDigit c → (d == c) ≡ false
  digit-other d c n (k, i) = elim (Bool-cases (d == c)) [
    | inl h ↦
        let same : d ≡ c = (==_iff d c).0 h in
        (let q : none ≡ some k = sym n ∙ subst (λ x. digit x ≡ some k) (sym same) i in cc)
    | inr h ↦ h
  ]

  tag_no_digit : digit b'<' ≡ none
  unfolding digit
  tag_no_digit = refl

  Untagged-digits : (ds b : Text) → All IsDigit ds → Untagged e b → Untagged e (ds ++ b)
  Untagged-digits [] b a u = u
  Untagged-digits (d ∷ ds) b (i, a) u =
      Untagged-other d (ds ++ b) (digit-other b'<' d tag_no_digit i) (Untagged-digits ds b a u)

  pub Untagged-CoordText : (b : Text) → digit e ≡ none → CoordText b → Untagged e b
  Untagged-CoordText b n (coord_text c ds i a) =
      Untagged-second c (ds ++ b'>' ∷ []) (digit-other e c n i) (
        Untagged-other c _ (digit-other b'<' c tag_no_digit i)
          (Untagged-digits ds (b'>' ∷ []) a (Untagged-other b'>' [] refl untagged_nil)))

-- The inside of a box, up to its `</box>`.
module _ (e : ℕ) (no_b : (e == b'b') ≡ false) (no_digit : digit e ≡ none) where
  pub Untagged-inside :
      (b1 b2 b3 b4 t : Text)
      → CoordText b1
      → CoordText b2
      → CoordText b3
      → CoordText b4
      → Untagged e t
      → Untagged e (box_open ++ (b1 ++ (b2 ++ (b3 ++ (b4 ++ t)))))
  Untagged-inside b1 b2 b3 b4 t c1 c2 c3 c4 u = Untagged-second e b'b' _ no_b (
      Untagged-other e b'b' _ refl (
        Untagged-other e b'o' _ refl (
          Untagged-other e b'x' _ refl (
            Untagged-other e b'>' _ refl (
              Untagged-append e b1 _ (Untagged-CoordText e b1 no_digit c1) (
                Untagged-append e b2 _ (Untagged-CoordText e b2 no_digit c2) (
                  Untagged-append e b3 _ (Untagged-CoordText e b3 no_digit c3)
                    (Untagged-append e b4 _ (Untagged-CoordText e b4 no_digit c4) u))))))))

-- `</box>` itself, for a character that is no `/`.
pub Untagged-box_close : (e : ℕ) → (e == b'/') ≡ false → Untagged e box_close
Untagged-box_close e h = Untagged-second e b'/' _ h (
    Untagged-other e b'/' _ refl (
      Untagged-other e b'b' _ refl (
        Untagged-other e b'o' _ refl
          (Untagged-other e b'x' _ refl (Untagged-other e b'>' _ refl untagged_nil)))))

-- `after_close` passes over text in which `</` does not stand.
pub after_close-Untagged : (b z : Text) → Untagged b'/' b → after_close (b ++ z) ≡ after_close z
unfolding after_close
after_close-Untagged [] z u = refl
after_close-Untagged (c ∷ b) z (untagged_cons f u) =
    rw (f (codes "box>") z, after_close) (after_close-Untagged b z u)

pub after_close-box_close : (z : Text) → after_close (box_close ++ z) ≡ some z
unfolding after_close after
after_close-box_close z = refl

pub slash_no_digit : digit b'/' ≡ none
unfolding digit
slash_no_digit = refl

-- A box ends at its first `</box>`.
pub after_close-BoxText : (b z : Text) → BoxText b → after_close (b ++ z) ≡ some z
after_close-BoxText b z (box_text b1 b2 b3 b4 c1 c2 c3 c4) =
    ap (λ (w : Text). after_close (box_open ++ w))
      (box_assoc b1 b2 b3 b4 box_close z ∙ sym (box_assoc b1 b2 b3 b4 [] (box_close ++ z)))
    ∙ after_close-Untagged (box_open ++ (b1 ++ (b2 ++ (b3 ++ (b4 ++ []))))) (box_close ++ z)
        (Untagged-inside b'/' refl slash_no_digit b1 b2 b3 b4 [] c1 c2 c3 c4 untagged_nil)
    ∙ after_close-box_close z

-- No run starts in a box.
pub Untagged-BoxText : (b : Text) → BoxText b → Untagged b'r' b
unfolding digit
Untagged-BoxText b (box_text b1 b2 b3 b4 c1 c2 c3 c4) =
    Untagged-inside b'r' refl refl b1 b2 b3 b4 box_close c1 c2 c3 c4 (Untagged-box_close b'r' refl)

module _ {A : Type 0} (m : Matcher A) where
  -- A scan passes over text that holds no tag that the matcher starts with.
  pub find_from-Untagged :
      (e : ℕ) (l : Text)
      → ((t : Text) → after (b'<' ∷ e ∷ l) t ≡ none → m t ≡ none)
      → (b z : Text) (pos : ℕ) → Untagged e b
      → find_from m 0 pos (b ++ z) ≡ find_from m 0 (pos + length b) z
  unfolding find_from
  find_from-Untagged e l opens [] z pos u = ap (λ n. find_from m 0 n z) (omega arith)
  find_from-Untagged e l opens (c ∷ b) z pos (untagged_cons f u) =
      rw (opens (c ∷ (b ++ z)) (f l z), find_from)
        (find_from-Untagged e l opens b z (pos + 1) u ∙ ap (λ n. find_from m 0 n z) (omega arith))

  -- A scan inside a match goes on behind it.
  pub find_from-skip :
      (b z : Text) (pos : ℕ)
      → find_from m (length b) pos (b ++ z) ≡ find_from m 0 (pos + length b) z
  unfolding find_from
  find_from-skip [] z pos = ap (λ n. find_from m 0 n z) (omega arith)
  find_from-skip (c ∷ b) z pos =
      find_from-skip b z (pos + 1) ∙ ap (λ n. find_from m 0 n z) (omega arith)
