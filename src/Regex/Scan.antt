-- ===== src/Regex/Scan.antt =====
-- The scan for boxes over text that it walks through: the same matches with anything behind it.
use locate_anything_setup.Prelude.{
  ℕ, suc, ◌+◌, ◌-◌, ◌≤◌, ◌<◌, ◌≡◌, refl, sym, ap, ◌∙◌, some, List, [], ◌∷◌, ◌++◌, append_assoc,
  append-nil, arith, length, length-append, All,
}
use locate_anything_setup.Prelude.Members.{All-map}
use locate_anything_setup.Text.{Text}
use locate_anything_setup.Regex.{Matcher, Match, Corners, box_re, find_from, finditer}
use locate_anything_setup.Regex.Untagged.{find_from-skip}
use locate_anything_setup.Regex.Walk.{Walk, walk_end, walk_on, walk_hit}

-- The matches of the text, from the place `pos` of its front on.
abbrev pub hits : (u : Text) → Walk u → ℕ → List (Match Corners)
hits [] walk_end pos = []
hits (c ∷ u) (walk_on f w) pos = hits u w (pos + 1)
hits u (walk_hit c b v g f w e) pos =
    record { start = pos; stop = pos + suc (length b); groups = g }
    ∷ hits v w (pos + suc (length b))

-- A match at the front of a text, for any matcher.
pub find_from-hit :
    {A : Type 0} (m : Matcher A) (c : ℕ) (b z : Text) (g : A) (pos : ℕ)
    → m (c ∷ (b ++ z)) ≡ some (g, z)
    → find_from m 0 pos (c ∷ (b ++ z))
      ≡ record { start = pos; stop = pos + suc (length b); groups = g }
        ∷ find_from m 0 (pos + suc (length b)) z
unfolding find_from
find_from-hit {A} m c b z g pos h =
    let n : suc (length (b ++ z)) - length z ≡ suc (length b) = omega (arith, length-append b z) in
    let k : suc (length b) - 1 ≡ length b = omega arith in
    let p : pos + 1 + length b ≡ pos + suc (length b) = omega arith in
    let hit : Match A = record { start = pos; stop = pos + suc (length b); groups = g } in
    rw (h, find_from)
      (rw n (rw k (ap (◌∷◌ hit) (find_from-skip m b z (pos + 1) ∙ ap (λ x. find_from m 0 x z) p))))

-- The scan finds the matches of the text, and goes on behind it.
pub find_from-Walk :
    (u z : Text) (w : Walk u) (pos : ℕ)
    → find_from box_re 0 pos (u ++ z) ≡ hits u w pos ++ find_from box_re 0 (pos + length u) z
unfolding find_from
find_from-Walk [] z walk_end pos = ap (λ n. find_from box_re 0 n z) (omega arith)
find_from-Walk (c ∷ u) z (walk_on f w) pos =
    rw (f z, find_from)
      (find_from-Walk u z w (pos + 1)
        ∙ ap (λ n. hits u w (pos + 1) ++ find_from box_re 0 n z) (omega arith))
find_from-Walk u z (walk_hit c b v g f w e) pos =
    let hit : Match Corners = record { start = pos; stop = pos + suc (length b); groups = g } in
    let place = pos + suc (length b) in
    let l : length u ≡ suc (length b + length v) = ap length e ∙ ap suc (length-append b v) in
    let p : place + length v ≡ pos + length u = omega arith in
    ap (λ (x : Text). find_from box_re 0 pos (x ++ z)) e
    ∙ ap (λ (x : Text). find_from box_re 0 pos (c ∷ x)) (append_assoc b v z)
    ∙ find_from-hit box_re c b (v ++ z) g pos (f (v ++ z))
    ∙ ap (◌∷◌ hit)
        (find_from-Walk v z w place ∙ ap (λ n. hits v w place ++ find_from box_re 0 n z) p)

-- How many matches there are does not depend on the place.
pub length-hits : (u : Text) (w : Walk u) (p q : ℕ) → length (hits u w p) ≡ length (hits u w q)
length-hits [] walk_end p q = refl
length-hits (c ∷ u) (walk_on f w) p q = length-hits u w (p + 1) (q + 1)
length-hits u (walk_hit c b v g f w e) p q =
    ap suc (length-hits v w (p + suc (length b)) (q + suc (length b)))

-- A match that is not empty lies between the two places.
abbrev pub Within : ℕ → ℕ → Match Corners → Type 0
Within i j m = (i ≤ m.start) × (m.start < j) × (m.start < m.stop)

pub Within-hits :
    (u : Text) (w : Walk u) (pos : ℕ) → All (Within pos (pos + length u)) (hits u w pos)
Within-hits [] walk_end pos = tt
Within-hits (c ∷ u) (walk_on f w) pos =
    All-map (hits u w (pos + 1)) (λ m h. (omega arith, omega arith, h.2))
      (Within-hits u w (pos + 1))
Within-hits u (walk_hit c b v g f w e) pos =
    let l : length u ≡ suc (length b + length v) = ap length e ∙ ap suc (length-append b v) in
    (
      (omega arith, omega arith, omega arith),
      All-map (hits v w (pos + suc (length b))) (λ m h. (omega arith, omega arith, h.2))
          (Within-hits v w (pos + suc (length b))),
    )

-- `finditer` of the text alone finds as many.
pub length-finditer :
    (u : Text) (w : Walk u) (pos : ℕ) → length (finditer box_re u) ≡ length (hits u w pos)
unfolding finditer find_from
length-finditer u w pos =
    ap (λ (t : Text). length (find_from box_re 0 0 t)) (sym (append-nil u))
    ∙ ap length (find_from-Walk u [] w 0 ∙ append-nil (hits u w 0))
    ∙ length-hits u w 0 pos
