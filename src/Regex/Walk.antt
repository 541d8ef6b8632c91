-- ===== src/Regex/Walk.antt =====
-- Text that a scan for boxes walks through on its own: no box match straddles its end.
use locate_anything_setup.Prelude.{
  ℕ, ◌≤◌, ◌≡◌, refl, sym, ap, subst, ◌∙◌, none, some, [], ◌∷◌, ◌++◌, append_assoc, append-nil,
  arith, Option-cases, inl, inr, Bool-cases, ◌==◌, length, length-append,
}
use locate_anything_setup.Text.{Text, after, codes}
use locate_anything_setup.Text.Strip.{after-eq-some}
use locate_anything_setup.Regex.{Corners, box_open, box_close, box_re, after_close}
use locate_anything_setup.Regex.BoxText.{box_re-split}
use locate_anything_setup.Regex.Untagged.{
  Untagged, untagged_cons, Untagged-box_close, after_close-BoxText, after_close-box_close,
}

pub data Walk : Text → Type 0 where
  walk_end : Walk []
  walk_on : {c : ℕ} {u : Text} → ((z : Text) → box_re (c ∷ (u ++ z)) ≡ none) → Walk u → Walk (c ∷ u)
  walk_hit :
      {u : Text} (c : ℕ) (b v : Text) (g : Corners)
      → ((z : Text) → box_re (c ∷ (b ++ z)) ≡ some (g, z))
      → Walk v
      → u ≡ c ∷ (b ++ v)
      → Walk u

pub Walk-append : (u v : Text) → Walk u → Walk v → Walk (u ++ v)
Walk-append [] v walk_end w = w
Walk-append (c ∷ u) v (walk_on f k) w =
    walk_on (λ z. rw (append_assoc u v z) (f (v ++ z))) (Walk-append u v k w)
Walk-append u v (walk_hit c b v1 g f k e) w =
    walk_hit c b (v1 ++ v) g f (Walk-append v1 v k w)
      (ap (λ (x : Text). x ++ v) e ∙ ap (◌∷◌ c) (append_assoc b v1 v))

pub box_re-miss : (t : Text) → after box_open t ≡ none → box_re t ≡ none
unfolding box_re
box_re-miss t h = rw h refl

pub Walk-Untagged : (u : Text) → Untagged b'b' u → Walk u
Walk-Untagged [] u = walk_end
Walk-Untagged (c ∷ u) (untagged_cons f k) =
    walk_on (λ z. box_re-miss (c ∷ (u ++ z)) (f (codes "ox>") z)) (Walk-Untagged u k)

append-cancel : (x y z : Text) → x ++ z ≡ y ++ z → x ≡ y
append-cancel [] [] z e = refl
append-cancel [] (b ∷ y) z e =
    (let no : ⊥ = omega (arith, ap length e, length-append (b ∷ y) z) in elim no [ ])
append-cancel (a ∷ x) [] z e =
    (let no : ⊥ = omega (arith, ap length e, length-append (a ∷ x) z) in elim no [ ])
append-cancel (a ∷ x) (b ∷ y) z e =
    let head : a ≡ b = cc in
    let tail : x ++ z ≡ y ++ z = cc in let ih = append-cancel x y z tail in cc

-- A literal that fits in the text fails whatever stands behind the text.
after-fits :
    (l x r z : Text) → length l ≤ length x → after l (x ++ r) ≡ none → after l (x ++ z) ≡ none
unfolding after
after-fits [] x r z h e = cc
after-fits (a ∷ l) [] r z h e = (let no : ⊥ = omega arith in elim no [ ])
after-fits (a ∷ l) (b ∷ x) r z h e = elim (Bool-cases (a == b)) [
  | inl q ↦ rw (q, after) (after-fits l x r z (omega arith) (rw (q, after) at e))
  | inr q ↦ rw (q, after) refl
]

-- Within the text up to the first `</box>`, a match of the text alone is one of the whole text.
no_match-append :
    (c : ℕ) (u z : Text)
    → ((w : Text) → after_close (c ∷ (u ++ w)) ≡ some w)
    → box_re (c ∷ u) ≡ none
    → box_re (c ∷ (u ++ z)) ≡ none
no_match-append c u z ends e = elim (Option-cases (box_re (c ∷ (u ++ z)))) [
  | inl h ↦ h
  | inr (p, h) ↦
      let (b, bt, s, f) = box_re-split (c ∷ (u ++ z)) p.1 p.0 h in
      let closes : after_close (c ∷ (u ++ z)) ≡ some p.1 =
        ap after_close s ∙ after_close-BoxText b p.1 bt in
      let same : some z ≡ some p.1 = sym (ends z) ∙ closes in
      let rest : z ≡ p.1 = cc in
      let whole : c ∷ u ≡ b =
        append-cancel (c ∷ u) b z (s ∙ ap (λ (w : Text). b ++ w) (sym rest)) in
      let hit : box_re (c ∷ u) ≡ some (p.0, []) = ap box_re (whole ∙ sym (append-nil b)) ∙ f [] in
      let no : none ≡ some (p.0, []) = sym e ∙ hit in cc
]

step :
    (c : ℕ) (u : Text) → ((w : Text) → after_close (c ∷ (u ++ w)) ≡ some w) → Walk u → Walk (c ∷ u)
step c u ends w = elim (Option-cases (box_re (c ∷ u))) [
  | inl e ↦ walk_on (λ z. no_match-append c u z ends e) w
  | inr (p, e) ↦
      let (b, bt, s, f) = box_re-split (c ∷ u) p.1 p.0 e in
      let alone : after_close (c ∷ u) ≡ some [] =
        ap (λ (x : Text). after_close (c ∷ x)) (sym (append-nil u)) ∙ ends [] in
      let closes : after_close (c ∷ u) ≡ some p.1 =
        ap after_close s ∙ after_close-BoxText b p.1 bt in
      let same : some [] ≡ some p.1 = sym alone ∙ closes in
      let rest : [] ≡ p.1 = cc in
      let whole : c ∷ u ≡ b = s ∙ ap (λ (x : Text). b ++ x) (sym rest) ∙ append-nil b in
      walk_hit c u [] p.0 (λ z. ap (λ (x : Text). box_re (x ++ z)) whole ∙ f z) walk_end
        (ap (◌∷◌ c) (sym (append-nil u)))
]

-- Up to the first `</box>` and with it, a text is walked through.
pub after_close-Walk :
    (s r : Text)
    → after_close s ≡ some r
    → (u : Text) × (s ≡ u ++ r)
      × (6 ≤ length u)
      × ((z : Text) → after_close (u ++ z) ≡ some z)
      × Walk u
unfolding after_close
after_close-Walk [] r e = cc
after_close-Walk (c ∷ s) r e = elim (Option-cases (after box_close (c ∷ s))) [
  | inr (r2, h) ↦
      let q : some r2 ≡ some r = rw (h, after_close) at e in
      let same : r2 ≡ r = cc in
      (
        box_close,
        after-eq-some box_close (c ∷ s) r2 h ∙ ap (◌++◌ box_close) same,
        omega arith,
        after_close-box_close,
        Walk-Untagged box_close (Untagged-box_close b'b' refl),
      )
  | inl h ↦
      let q : after_close s ≡ some r = rw (h, after_close) at e in
      let (u, su, long, ends, w) = after_close-Walk s r q in
      let misses : (z : Text) → after box_close (c ∷ (u ++ z)) ≡ none = λ z.
        after-fits box_close (c ∷ u) r z (omega arith)
          (subst (λ (x : Text). after box_close (c ∷ x) ≡ none) su h) in
      let closes : (z : Text) → after_close (c ∷ (u ++ z)) ≡ some z =
        λ z. rw (misses z, after_close) (ends z) in
      (c ∷ u, ap (◌∷◌ c) su, omega arith, closes, step c u closes w)
]
