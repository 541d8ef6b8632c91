-- ===== src/Parsing/Conserve.antt =====
-- Counting the box matches of an answer: those in runs, and the orphans of pass 2.
use locate_anything_setup.Prelude.{
  ℕ, zero, suc, ◌+◌, ◌≤◌, ◌≡◌, refl, sym, ap, ◌∙◌, Option-cases, inl, inr, some, Bool, true, false,
  not, List, [], ◌∷◌, ◌++◌, append_assoc, map, length, length-append, length-map, All, filter_if,
  filter_if-keeps, filter_if-drops, ltb, arith, Bool-cases,
}
use locate_anything_setup.Prelude.Members.{All-map}
use locate_anything_setup.Text.{Text, strip, is_empty, codes}
use locate_anything_setup.Float.{Float}
use locate_anything_setup.Regex.{
  Match, Matcher, Corners, Run, box_re, ref_run_re, find_from, finditer,
}
use locate_anything_setup.Regex.Untagged.{Untagged, find_from-Untagged}
use locate_anything_setup.Regex.Walk.{Walk, box_re-miss}
use locate_anything_setup.Regex.Scan.{
  hits, find_from-hit, find_from-Walk, Within, Within-hits, length-finditer,
}
use locate_anything_setup.Parsing.{span_of, overlaps_any, run_boxes, make_box}

-- The boxes in the groups of the runs.
abbrev pub in_runs : List (Match Run) → ℕ
in_runs [] = 0
in_runs (m ∷ ms) = length (finditer box_re m.groups.boxes) + in_runs ms

module _ (F : Type 0) ⦃fl : Float F⦄ where
  pub run_boxes-in_runs :
      (ms : List (Match Run)) (w h : ℕ)
      → length (run_boxes {F = F} ms w h).0 + (run_boxes {F = F} ms w h).1 ≡ in_runs ms
  unfolding run_boxes
  run_boxes-in_runs [] w h = refl
  run_boxes-in_runs (m ∷ ms) w h =
      let ih = run_boxes-in_runs ms w h in
      let boxes = finditer box_re m.groups.boxes in
      let made =
        map (λ (bm : Match Corners). make_box {F = F} (strip m.groups.label) bm.groups w h) boxes in
      elim (Bool-cases (is_empty (strip m.groups.label))) [
        | inl e ↦ rw e (omega (arith, ih))
        | inr e ↦
            let n : length made ≡ length boxes = length-map _ boxes in
            rw e (omega (arith, ih, n, length-append made (run_boxes {F = F} ms w h).0))
      ]

-- The test of pass 2.
abbrev pub is_orphan : List (ℕ × ℕ) → Match Corners → Bool
is_orphan spans m = not (overlaps_any spans (span_of m))

-- The matches that overlap none of the spans.
abbrev pub orphans : List (ℕ × ℕ) → List (Match Corners) → List (Match Corners)
orphans spans ms = filter_if (is_orphan spans) ms

orphans-append :
    (spans : List (ℕ × ℕ)) (xs ys : List (Match Corners))
    → orphans spans (xs ++ ys) ≡ orphans spans xs ++ orphans spans ys
orphans-append spans [] ys = refl
orphans-append spans (x ∷ xs) ys = elim (Bool-cases (is_orphan spans x)) [
  | inl e ↦
      filter_if-keeps (is_orphan spans) x (xs ++ ys) e
      ∙ ap (◌∷◌ x) (orphans-append spans xs ys)
      ∙ ap (λ zs. zs ++ orphans spans ys) (sym (filter_if-keeps (is_orphan spans) x xs e))
  | inr e ↦
      filter_if-drops (is_orphan spans) x (xs ++ ys) e
      ∙ orphans-append spans xs ys
      ∙ ap (λ zs. zs ++ orphans spans ys) (sym (filter_if-drops (is_orphan spans) x xs e))
]

-- A match inside a span is no orphan.
orphans_inside :
    (i j : ℕ) (spans : List (ℕ × ℕ)) (ms : List (Match Corners))
    → All (Within i j) ms
    → orphans ((i, j) ∷ spans) ms ≡ []
orphans_inside i j spans [] a = refl
orphans_inside i j spans (m ∷ ms) ((p, q, r), a) =
    let x : ltb m.start j ≡ true = ground arith in
    let y : ltb i m.stop ≡ true = ground arith in
    let o : is_orphan ((i, j) ∷ spans) m ≡ false = rw (x, y) refl in
    filter_if-drops (is_orphan ((i, j) ∷ spans)) m ms o ∙ orphans_inside i j spans ms a

-- A span that ends in front of the matches changes nothing.
orphans_behind :
    (i j : ℕ) (spans : List (ℕ × ℕ)) (ms : List (Match Corners))
    → All (λ (m : Match Corners). j ≤ m.start) ms
    → orphans ((i, j) ∷ spans) ms ≡ orphans spans ms
orphans_behind i j spans [] a = refl
orphans_behind i j spans (m ∷ ms) (p, a) =
    let x : ltb m.start j ≡ false = ground arith in
    let same : is_orphan ((i, j) ∷ spans) m ≡ is_orphan spans m = rw x refl in
    let ih = orphans_behind i j spans ms a in
    elim (Bool-cases (is_orphan spans m)) [
      | inl e ↦
          filter_if-keeps (is_orphan ((i, j) ∷ spans)) m ms (same ∙ e)
          ∙ ap (◌∷◌ m) ih
          ∙ sym (filter_if-keeps (is_orphan spans) m ms e)
      | inr e ↦
          filter_if-drops (is_orphan ((i, j) ∷ spans)) m ms (same ∙ e)
          ∙ ih
          ∙ sym (filter_if-drops (is_orphan spans) m ms e)
    ]

-- A match that ends in front of the runs overlaps none.
pub outside :
    (runs : List (Match Run)) (m : Match Corners) (p : ℕ)
    → m.stop ≤ p
    → All (λ (x : Match Run). p ≤ x.start) runs
    → overlaps_any (map span_of runs) (span_of m) ≡ false
outside [] m p h a = refl
outside (x ∷ runs) m p h (l, a) =
    let y : ltb x.start m.stop ≡ false = ground arith in
    let ih = outside runs m p h a in
    elim (Bool-cases (ltb m.start x.stop)) [ inl e ↦ rw (e, y) ih | inr e ↦ rw e ih ]

pub starts_from :
    {A : Type 0} (m : Matcher A) (skip pos : ℕ) (t : Text)
    → All (λ (x : Match A). pos ≤ x.start) (find_from m skip pos t)
unfolding find_from
starts_from m skip pos [] = tt
starts_from m (suc skip) pos (c ∷ t) =
    All-map _ (λ x h. omega arith) (starts_from m skip (pos + 1) t)
starts_from m zero pos (c ∷ t) = elim (Option-cases (m (c ∷ t))) [
  | inl e ↦ rw (e, find_from) (All-map _ (λ x h. omega arith) (starts_from m zero (pos + 1) t))
  | inr (p, e) ↦
      rw (e, find_from) (omega arith, All-map _ (λ x h. omega arith) (starts_from m _ (pos + 1) t))
]

abbrev pub runs_at : ℕ → Text → List (Match Run)
runs_at pos t = find_from ref_run_re 0 pos t

abbrev pub boxes_at : ℕ → Text → List (Match Corners)
boxes_at pos t = find_from box_re 0 pos t

-- Orphans and boxes in runs are all the boxes.
abbrev pub Total : ℕ → Text → Type 0
Total pos t =
    length (orphans (map span_of (runs_at pos t)) (boxes_at pos t)) + in_runs (runs_at pos t)
    ≡ length (boxes_at pos t)

pub Total-run :
    (pos c : ℕ) (pre rest : Text) (run : Run)
    → ref_run_re (c ∷ ((pre ++ run.boxes) ++ rest)) ≡ some (run, rest)
    → Untagged b'b' (c ∷ pre)
    → Walk run.boxes
    → Total (pos + suc (length (pre ++ run.boxes))) rest
    → Total pos (c ∷ ((pre ++ run.boxes) ++ rest))
Total-run pos c pre rest run h u w ih =
    let place = pos + length (c ∷ pre) in
    let stop = pos + suc (length (pre ++ run.boxes)) in
    let l : place + length run.boxes ≡ stop = omega (arith, length-append pre run.boxes) in
    let e1 = find_from-hit ref_run_re c (pre ++ run.boxes) rest run pos h in
    let e2 : boxes_at pos (c ∷ ((pre ++ run.boxes) ++ rest))
        ≡ hits run.boxes w place ++ boxes_at stop rest =
      ap (λ (x : Text). boxes_at pos (c ∷ x)) (append_assoc pre run.boxes rest)
      ∙ find_from-Untagged box_re b'b' (codes "ox>") box_re-miss (c ∷ pre) (run.boxes ++ rest) pos u
      ∙ find_from-Walk run.boxes rest w place
      ∙ ap (λ n. hits run.boxes w place ++ boxes_at n rest) l in
    let spans = map span_of (runs_at stop rest) in
    let own = hits run.boxes w place in
    let others = boxes_at stop rest in
    let inside : orphans ((pos, stop) ∷ spans) own ≡ [] =
      orphans_inside pos stop spans own
        (All-map own (λ m q. (omega arith, omega arith, q.2)) (Within-hits run.boxes w place)) in
    let behind = orphans_behind pos stop spans others (starts_from box_re 0 stop rest) in
    let count = length-finditer run.boxes w place in
    rw (e1, e2)
      (rw (orphans-append ((pos, stop) ∷ spans) own others)
        (rw (inside, behind) (omega (arith, ih, count, length-append own others))))
