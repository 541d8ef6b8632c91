-- ===== src/Inference/Loading/Encoder/Segments.antt =====
-- The mask of the patched attention, and the images that the patches belong to.
use locate_anything_setup.Prelude.{
  ℕ, suc, ◌≡◌, ◌↔◌, ◌≤◌, ◌<◌, refl, ap, true, false, ◌&&◌, List, [], ◌∷◌, leb, ltb, if◌then◌else◌,
  ltb→lt, Bool-cases, inl, inr, arith,
}
use locate_anything_setup.Inference.Loading.Encoder.Mask.{bool_mask}

-- The number of the image that a patch belongs to.
unfoldable pub segment : List ℕ → ℕ → ℕ
segment [] i = 0
segment (s ∷ rest) i =
    let others = segment rest i in elim rest [ [] ↦ 0 | e ∷ _ ↦ if ltb i e then 0 else suc others ]

-- The ends are in order.
abbrev pub IsOrdered : List ℕ → Type 0
IsOrdered [] = Unit
IsOrdered (a ∷ []) = Unit
IsOrdered (a ∷ b ∷ rest) = (a ≤ b) × IsOrdered (b ∷ rest)

abbrev pub IsBelow : ℕ → List ℕ → ℕ → Type 0
IsBelow a [] i = i < a
IsBelow a (b ∷ rest) i = IsBelow b rest i

-- From the first of the ends on, and in front of the last.
abbrev pub IsInside : List ℕ → ℕ → Type 0
IsInside [] i = ⊥
IsInside (a ∷ rest) i = (a ≤ i) × IsBelow a rest i

-- A row in front of all ends attends to nothing.
bool_mask-before :
    (a : ℕ) (rest : List ℕ) (i j : ℕ)
    → IsOrdered (a ∷ rest)
    → i < a
    → bool_mask (a ∷ rest) i j ≡ false
unfolding bool_mask
bool_mask-before a [] i j o h = refl
bool_mask-before a (b ∷ rest) i j (le, o) h =
    let ih : bool_mask (b ∷ rest) i j ≡ false = bool_mask-before b rest i j o (omega arith) in
    let low : leb a i ≡ false = ground arith in rw (low, ih) refl

-- A column in front of all ends is attended by nothing.
bool_mask-above :
    (a : ℕ) (rest : List ℕ) (i j : ℕ)
    → IsOrdered (a ∷ rest)
    → j < a
    → bool_mask (a ∷ rest) i j ≡ false
unfolding bool_mask
bool_mask-above a [] i j o h = refl
bool_mask-above a (b ∷ rest) i j (le, o) h =
    let ih : bool_mask (b ∷ rest) i j ≡ false = bool_mask-above b rest i j o (omega arith) in
    let low : leb a j ≡ false = ground arith in
    elim (Bool-cases (leb a i && ltb i b)) [
      | inl e ↦ rw (low, ih, e) refl
      | inr e ↦ rw (low, ih, e) refl
    ]

-- Where the ends of the images are in order, and a row and a column lie from the first of them on
-- and in front of the last, the mask of the patched attention is set there exactly if both belong
-- to the same image.
pub bool_mask-segment_iff :
    (a : ℕ) (rest : List ℕ) (i j : ℕ)
    → IsOrdered (a ∷ rest)
    → IsInside (a ∷ rest) i
    → IsInside (a ∷ rest) j
    → (bool_mask (a ∷ rest) i j ≡ true) ↔ (segment (a ∷ rest) i ≡ segment (a ∷ rest) j)
unfolding bool_mask segment
bool_mask-segment_iff a [] i j o (p, q) (r, s) = (let no_way : ⊥ = omega arith in elim no_way [ ])
bool_mask-segment_iff a (b ∷ rest) i j (le, o) (p, q) (r, s) =
    let from_i : leb a i ≡ true = ground arith in
    let from_j : leb a j ≡ true = ground arith in
    elim (Bool-cases (ltb i b)) [
      | inl x ↦ elim (Bool-cases (ltb j b)) [
        | inl y ↦ rw (from_i, from_j, x, y) (λ _. refl, λ _. refl)
        | inr y ↦
            let rows = bool_mask-before b rest i j o (ltb→lt i b x) in
            rw (from_i, from_j, x, y, rows) (λ h. cc, λ h. cc)
      ]
      | inr x ↦ elim (Bool-cases (ltb j b)) [
        | inl y ↦
            let columns = bool_mask-above b rest i j o (ltb→lt j b y) in
            rw (from_i, from_j, x, y, columns) (λ h. cc, λ h. cc)
        | inr y ↦
            let ih = bool_mask-segment_iff b rest i j o (ground arith, q) (ground arith, s) in
            rw (from_i, from_j, x, y) (λ h. ap suc (ih.0 h), λ h. ih.1 (omega arith))
      ]
    ]
