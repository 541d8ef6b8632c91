-- ===== src/Calibration/Statistics.antt =====
-- What a calibration that returns has done, and what its numbers are.
use locate_anything_setup.Prelude.{
  ℕ, zero, suc, ◌+◌, ◌-◌, ◌<◌, ◌≡◌, refl, sym, ap, subst, ◌∙◌, inl, inr, true, false, Bool-cases,
  some, List, [], ◌∷◌, length, All, arith, ltb, ltb→lt,
}
use mathlib.Core.List.{Memᴰ}
use locate_anything_setup.Prelude.Members.{All-map, All-Memᴰ, All-self}
use locate_anything_setup.Text.{Text, codes}
use locate_anything_setup.Float.{Float, IsOrder, ◌≼◌}
use locate_anything_setup.Outcome.{
  Value, str, Outcome, ok, other_error, foreign, >>=-eq-ok, value_error, runtime_error, no_runs,
  no_output,
}
use locate_anything_setup.Prompts.{Task, wire_name}
use locate_anything_setup.Inference.Image.{Bytes}
use locate_anything_setup.Inference.Variant.{InferenceResult}
use locate_anything_setup.Inference.Engine.Laws.{some_or_raise-eq-ok, ensure-eq-ok}
use locate_anything_setup.Calibration.{
  ImageFile, read_image, classified, is_recognized, latencies_from, calibrate, CalibrationResult,
  insert, sorted, get_elem?, at, median, p95_idx, statistics,
}

ok-injective : {A : Type 0} (a b : A) → ok a ≡ ok b → a ≡ b
ok-injective a b e = cc

module _ {F : Type 0} ⦃fl : Float F⦄ where
  insert-front : (x y : F) (ys : List F) → fl.le x y ≡ true → insert x (y ∷ ys) ≡ x ∷ (y ∷ ys)
  unfolding insert
  insert-front x y ys h = rw (h, insert) refl

  insert-behind : (x y : F) (ys : List F) → fl.le x y ≡ false → insert x (y ∷ ys) ≡ y ∷ insert x ys
  unfolding insert
  insert-behind x y ys h = rw (h, insert) refl

  insert-All : (P : F → Type 0) (x : F) (ys : List F) → P x → All P ys → All P (insert x ys)
  unfolding insert
  insert-All P x [] p ps = (p, tt)
  insert-All P x (y ∷ ys) p (q, qs) = elim (Bool-cases (fl.le x y)) [
    | inl e ↦ subst (All P) (sym (insert-front x y ys e)) (p, (q, qs))
    | inr e ↦ subst (All P) (sym (insert-behind x y ys e)) (q, insert-All P x ys p qs)
  ]

  All-insert : (P : F → Type 0) (x : F) (ys : List F) → All P (insert x ys) → P x × All P ys
  unfolding insert
  All-insert P x [] (p, ps) = (p, tt)
  All-insert P x (y ∷ ys) h = elim (Bool-cases (fl.le x y)) [
    | inl e ↦ subst (All P) (insert-front x y ys e) h
    | inr e ↦
        let (q, qs) = subst (All P) (insert-behind x y ys e) h in
        let (p, ps) = All-insert P x ys qs in (p, (q, ps))
  ]

  sorted-All : (P : F → Type 0) (xs : List F) → All P xs → All P (sorted xs)
  unfolding sorted
  sorted-All P [] h = tt
  sorted-All P (x ∷ xs) (p, ps) = insert-All P x (sorted xs) p (sorted-All P xs ps)

  All-sorted : (P : F → Type 0) (xs : List F) → All P (sorted xs) → All P xs
  unfolding sorted
  All-sorted P [] h = tt
  All-sorted P (x ∷ xs) h = let (p, ps) = All-insert P x (sorted xs) h in (p, All-sorted P xs ps)

  -- Nothing is greater than what stands behind it.
  abbrev pub Ascends : List F → Type 0
  Ascends [] = Unit
  Ascends (y ∷ ys) = All (λ z. y ≼ z) ys × Ascends ys

  get_elem?-Memᴰ : (xs : List F) (i : ℕ) (x : F) → get_elem? xs i ≡ some x → Memᴰ x xs
  get_elem?-Memᴰ [] i x e = cc
  get_elem?-Memᴰ (y ∷ ys) zero x e = let same : y ≡ x = cc in Memᴰ.head (sym same)
  get_elem?-Memᴰ (y ∷ ys) (suc i) x e = Memᴰ.tail (get_elem?-Memᴰ ys i x e)

  module _ (order : IsOrder F) where
    other : (x y : F) → fl.le x y ≡ false → y ≼ x
    other x y e = elim (order.le_total x y) [ inl h ↦ cc | inr h ↦ h ]

    insert-Ascends : (x : F) (ys : List F) → Ascends ys → Ascends (insert x ys)
    unfolding insert
    insert-Ascends x [] h = (tt, tt)
    insert-Ascends x (y ∷ ys) (h, hs) = elim (Bool-cases (fl.le x y)) [
      | inl e ↦
          subst Ascends (sym (insert-front x y ys e))
            ((e, All-map ys (λ z m. order.le_trans x y z e m) h), (h, hs))
      | inr e ↦
          subst Ascends (sym (insert-behind x y ys e))
            (insert-All (λ z. y ≼ z) x ys (other x y e) h, insert-Ascends x ys hs)
    ]

    sorted-Ascends : (xs : List F) → Ascends (sorted xs)
    unfolding sorted
    sorted-Ascends [] = tt
    sorted-Ascends (x ∷ xs) = insert-Ascends x (sorted xs) (sorted-Ascends xs)

    first-least :
        (xs : List F) (lo : F) → Ascends xs → get_elem? xs 0 ≡ some lo → All (λ x. lo ≼ x) xs
    first-least [] lo a e = cc
    first-least (x ∷ xs) lo (h, a) e =
        let same : x ≡ lo = cc in subst (λ l. All (λ z. l ≼ z) (x ∷ xs)) same (order.le_refl x, h)

    last-greatest :
        (xs : List F) (hi : F)
        → Ascends xs
        → get_elem? xs (length xs - 1) ≡ some hi
        → All (λ x. x ≼ hi) xs
    last-greatest [] hi a e = tt
    last-greatest (x ∷ []) hi a e =
        let same : x ≡ hi = cc in (subst (λ h. x ≼ h) same (order.le_refl x), tt)
    last-greatest (x ∷ y ∷ xs) hi (h, a) e =
        let i : length (x ∷ y ∷ xs) - 1 ≡ suc (length (y ∷ xs) - 1) = omega arith in
        let f : get_elem? (y ∷ xs) (length (y ∷ xs) - 1) ≡ some hi =
          subst (λ j. get_elem? (x ∷ y ∷ xs) j ≡ some hi) i e in
        (
          All-Memᴰ (λ z. x ≼ z) hi (y ∷ xs) h (get_elem?-Memᴰ (y ∷ xs) (length (y ∷ xs) - 1) hi f),
          last-greatest (y ∷ xs) hi a f,
        )

  at-eq-ok : (xs : List F) (i : ℕ) (x : F) → at xs i ≡ ok x → get_elem? xs i ≡ some x
  unfolding at
  at-eq-ok xs i x e = some_or_raise-eq-ok (get_elem? xs i) (other_error foreign) x e

  -- A member of the sorted list is a member of the list.
  sorted-Memᴰ : (xs : List F) (x : F) → Memᴰ x (sorted xs) → Memᴰ x xs
  sorted-Memᴰ xs x m = All-Memᴰ (λ y. Memᴰ y xs) x (sorted xs) (sorted-All _ xs (All-self xs)) m

  statistics-eq-ok :
      IsOrder F
      → (ls : List F) (path prompt : Text) (r : CalibrationResult F)
      → statistics ls path prompt ≡ ok r
      → (r.n_runs ≡ length ls)
        × All (λ x. r.min_latency_ms ≼ x) ls
        × All (λ x. x ≼ r.max_latency_ms) ls
        × Memᴰ r.p95_latency_ms ls
  unfolding statistics
  statistics-eq-ok order ls path prompt r e =
      let (m, e0, e1) = >>=-eq-ok (median (sorted ls)) _ r e in
      let (p, e2, e3) = >>=-eq-ok (at (sorted ls) (p95_idx F (length (sorted ls)))) _ r e1 in
      let (lo, e4, e5) = >>=-eq-ok (at (sorted ls) 0) _ r e3 in
      let (hi, e6, e7) = >>=-eq-ok (at (sorted ls) (length (sorted ls) - 1)) _ r e5 in
      rw (sym (ok-injective _ r e7)) (
        refl,
        All-sorted (λ x. lo ≼ x) ls
            (first-least order (sorted ls) lo (sorted-Ascends order ls)
              (at-eq-ok (sorted ls) 0 lo e4)),
        All-sorted (λ x. x ≼ hi) ls
            (last-greatest order (sorted ls) hi (sorted-Ascends order ls)
              (at-eq-ok (sorted ls) (length (sorted ls) - 1) hi e6)),
        sorted-Memᴰ ls p (
            get_elem?-Memᴰ (sorted ls) (p95_idx F (length (sorted ls))) p
              (at-eq-ok (sorted ls) (p95_idx F (length (sorted ls))) p e2)),
      )

module _ {F : Type 0} ⦃fl : Float F⦄
    (run : ℕ → Bytes → Text → Value → Value → Outcome (InferenceResult F)) (clock : ℕ → F) where
  latencies_from-length :
      (n k : ℕ) (jpeg : Bytes) (prompt : Text) (task : Task) (ls : List F)
      → latencies_from run clock n k jpeg prompt task ≡ ok ls
      → length ls ≡ n
  unfolding latencies_from
  latencies_from-length zero k jpeg prompt task ls e = ap length (sym (ok-injective [] ls e))
  latencies_from-length (suc n) k jpeg prompt task ls e =
      let (r, e0, e1) =
        >>=-eq-ok (run k jpeg prompt (str (codes "hybrid")) (str (wire_name task))) _ ls e in
      let (rest, e2, e3) =
        >>=-eq-ok (latencies_from run clock n (k + 1) jpeg prompt task) _ ls e1 in
      let ih = latencies_from-length n (k + 1) jpeg prompt task rest e2 in
      ap length (sym (ok-injective _ ls e3)) ∙ ap suc ih

  -- Where floats are ordered totally, a calibration that returns has read an image, had a warm-up
  -- run with recognizable output, and then exactly the number of runs asked for, at least one,
  -- whose count it reports; no measured latency is below the minimum or above the maximum that it
  -- reports, and the 95th percentile is one of them.
  pub calibrate-Statistics :
      IsOrder F
      → (file : ImageFile) (path prompt : Text) (n : ℕ) (r : CalibrationResult F)
      → calibrate run clock file path prompt n ≡ ok r
      → (jpeg : Bytes) × (task : Task) × (warm : InferenceResult F) × (ls : List F) × (read_image
            file
          ≡ ok jpeg)
        × (run 0 jpeg prompt (str (codes "hybrid")) (str (wire_name task)) ≡ ok warm)
        × (is_recognized warm ≡ true)
        × (latencies_from run clock n 1 jpeg prompt task ≡ ok ls)
        × (0 < n)
        × (length ls ≡ n)
        × (r.n_runs ≡ n)
        × All (λ x. r.min_latency_ms ≼ x) ls
        × All (λ x. x ≼ r.max_latency_ms) ls
        × Memᴰ r.p95_latency_ms ls
  unfolding calibrate
  calibrate-Statistics order file path prompt n r e =
      let (jpeg, read, e1) = >>=-eq-ok (read_image file) _ r e in
      let (some_runs, e2) = ensure-eq-ok (ltb 0 n) (value_error no_runs) _ r e1 in
      let (task, known, e3) = >>=-eq-ok (classified prompt) _ r e2 in
      let (warm, warmed, e4) =
        >>=-eq-ok (run 0 jpeg prompt (str (codes "hybrid")) (str (wire_name task))) _ r e3 in
      let (recognized, e5) = ensure-eq-ok (is_recognized warm) (runtime_error no_output) _ r e4 in
      let (ls, measured, e6) = >>=-eq-ok (latencies_from run clock n 1 jpeg prompt task) _ r e5 in
      let (count, least, greatest, p95) = statistics-eq-ok order ls path prompt r e6 in
      let l = latencies_from-length n 1 jpeg prompt task ls measured in
      (
        jpeg,
        task,
        warm,
        ls,
        read,
        warmed,
        recognized,
        measured,
        ltb→lt 0 n some_runs,
        l,
        count ∙ l,
        least,
        greatest,
        p95,
      )
