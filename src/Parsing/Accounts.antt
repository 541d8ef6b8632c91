-- ===== src/Parsing/Accounts.antt =====
-- Every box match of an answer is a detection or is counted as off the contract.
use locate_anything_setup.Prelude.{
  ℕ, zero, suc, ◌+◌, ◌≤◌, ◌≡◌, refl, sym, ap, subst, ◌∙◌, Option-cases, inl, inr, none, some, not,
  [], ◌∷◌, ◌++◌, append_assoc, map, length, length-append, filter_if-keeps, arith, true,
}
use locate_anything_setup.Text.{Text, after, codes}
use locate_anything_setup.Float.{Float}
use locate_anything_setup.Regex.{Match, Corners, box_re, ref_run_re, ref_open, find_from, finditer}
use locate_anything_setup.Regex.BoxText.{BoxText, box_text, box_re-split}
use locate_anything_setup.Regex.Untagged.{Untagged-BoxText, find_from-Untagged}
use locate_anything_setup.Regex.RunText.{ref_run_re-Walk}
use locate_anything_setup.Regex.Scan.{find_from-hit}
use locate_anything_setup.Parsing.{span_of, parse_boxes}
use locate_anything_setup.Parsing.Conserve.{
  run_boxes-in_runs, is_orphan, outside, starts_from, runs_at, boxes_at, Total, Total-run,
}

ref_run_re-miss : (t : Text) → after ref_open t ≡ none → ref_run_re t ≡ none
unfolding ref_run_re
ref_run_re-miss t h = rw h refl

-- A box outside the runs: one orphan, and no run starts in it.
Total-box :
    (pos c : ℕ) (b rest : Text) (g : Corners)
    → BoxText (c ∷ b)
    → box_re (c ∷ (b ++ rest)) ≡ some (g, rest)
    → Total (pos + suc (length b)) rest
    → Total pos (c ∷ (b ++ rest))
Total-box pos c b rest g bt h ih =
    let stop = pos + suc (length b) in
    let hit : Match Corners = record { start = pos; stop = stop; groups = g } in
    let runs = runs_at stop rest in
    let e1 : runs_at pos (c ∷ (b ++ rest)) ≡ runs =
      find_from-Untagged ref_run_re b'r' (codes "ef>") ref_run_re-miss (c ∷ b) rest pos
        (Untagged-BoxText (c ∷ b) bt) in
    let e2 : boxes_at pos (c ∷ (b ++ rest)) ≡ hit ∷ boxes_at stop rest =
      find_from-hit box_re c b rest g pos h in
    let o : is_orphan (map span_of runs) hit ≡ true =
      ap not (outside runs hit stop (omega arith) (starts_from ref_run_re 0 stop rest)) in
    rw (e1, e2)
      (rw (filter_if-keeps (is_orphan (map span_of runs)) hit (boxes_at stop rest) o)
        (omega (arith, ih)))

BoxText-cons : (t : Text) → BoxText t → (c : ℕ) × (b : Text) × (t ≡ c ∷ b)
BoxText-cons t (box_text b1 b2 b3 b4 c1 c2 c3 c4) = (b'<', _, refl)

Total-step :
    (pos c : ℕ) (t : Text)
    → ref_run_re (c ∷ t) ≡ none
    → box_re (c ∷ t) ≡ none
    → Total (pos + 1) t
    → Total pos (c ∷ t)
unfolding find_from
Total-step pos c t r b ih = rw (r, find_from) (rw (b, find_from) ih)

-- The scans for runs and for boxes, side by side.
scan-Total : (fuel pos : ℕ) (t : Text) → length t ≤ fuel → Total pos t
unfolding find_from
scan-Total fuel pos [] h = refl
scan-Total zero pos (c ∷ t) h = (let no : ⊥ = omega arith in elim no [ ])
scan-Total (suc fuel) pos (c ∷ t) h = elim (Option-cases (box_re (c ∷ t))) [
  | inr (p, e) ↦
      let (b0, bt, s, f) = box_re-split (c ∷ t) p.1 p.0 e in
      let (d, b, q) = BoxText-cons b0 bt in
      let whole : c ∷ t ≡ d ∷ (b ++ p.1) = s ∙ ap (λ (x : Text). x ++ p.1) q in
      let hit = subst (λ (x : Text). box_re (x ++ p.1) ≡ some (p.0, p.1)) q (f p.1) in
      let short : length p.1 ≤ fuel = omega (arith, ap length whole, length-append b p.1) in
      subst (Total pos) (sym whole) (
        Total-box pos d b p.1 p.0 (subst BoxText q bt) hit
          (scan-Total fuel (pos + suc (length b)) p.1 short))
  | inl e ↦ elim (Option-cases (ref_run_re (c ∷ t))) [
    | inl n ↦ Total-step pos c t n e (scan-Total fuel (pos + 1) t (omega arith))
    | inr (p, n) ↦
        let run = p.0 in
        let rest = p.1 in
        let (d, pre, s, u, w) = ref_run_re-Walk (c ∷ t) rest run n in
        let whole : c ∷ t ≡ d ∷ ((pre ++ run.boxes) ++ rest) =
          s ∙ ap (◌∷◌ d) (sym (append_assoc pre run.boxes rest)) in
        let short : length rest ≤ fuel =
          omega (arith, ap length whole, length-append (pre ++ run.boxes) rest) in
        subst (Total pos) (sym whole) (
          Total-run pos d pre rest run
            (subst (λ (x : Text). ref_run_re x ≡ some (run, rest)) whole n) u w
            (scan-Total fuel (pos + suc (length (pre ++ run.boxes))) rest short))
  ]
]

module _ (F : Type 0) ⦃fl : Float F⦄ where
  -- For every answer of the model and every size, the detections that `parse_boxes` returns and the
  -- number it counts as off the contract add up to the matches of the box pattern in the answer: no
  -- box is lost and none is counted twice.
  pub parse_boxes_total :
      (answer : Text) (w h : ℕ)
      → length (parse_boxes {F = F} answer w h).0 + (parse_boxes {F = F} answer w h).1
        ≡ length (finditer box_re answer)
  unfolding parse_boxes finditer
  parse_boxes_total answer w h = omega (
    arith,
    run_boxes-in_runs F (finditer ref_run_re answer) w h,
    scan-Total (length answer) 0 answer (omega arith),
  )
