-- ===== src/Tests/Base.antt =====
-- A float in thousandths, for the tests: of_nat, the arithmetic and the rounding of fixed point. No
-- test takes a root.
use locate_anything_setup.Prelude.{
  ℕ, zero, suc, ◌+◌, ◌-◌, ◌*◌, ◌/◌, ◌≤◌, ◌≡◌, true, leb, ltb, arith, leb→le,
}
use native.Mathlib.Nat.{le-div_iff_mul-le, div-mul-le_self, div-zero}
use locate_anything_setup.Float.{Float, IsMonotone, IsOrder}

instance unfoldable pub thousandths : Float ℕ
thousandths = record {
  of_nat = λ n. 1000 * n;
  add = λ x y. x + y;
  sub = λ x y. x - y;
  mul = λ x y. (x * y) / 1000;
  div = λ x y. (x * 1000) / y;
  sqrt = λ x. x;
  trunc = λ x. x / 1000;
  round = λ x. (x + 500) / 1000;
  round_to = λ x n. x;
  le = leb;
  lt = ltb;
}

div_mono_lem : (x y n : ℕ) → x ≤ y → x / n ≤ y / n
div_mono_lem x y zero h = rw (div-zero x, div-zero y) (omega arith)
div_mono_lem x y (suc n) h =
    let l : x / suc n * suc n ≤ x = div-mul-le_self x (suc n) in
    (le-div_iff_mul-le {k = suc n} {x = x / suc n} {y = y} (omega arith)).1 (omega arith)

mul_mono_lem : (x y n : ℕ) → x ≤ y → x * n ≤ y * n
mul_mono_lem x y n h = grind arith

le→leb : (x y : ℕ) → x ≤ y → leb x y ≡ true
le→leb x y h = ground arith

pub thousandths-IsMonotone : IsMonotone ℕ
unfolding thousandths
thousandths-IsMonotone = record {
  of_nat_mono = λ m n h. le→leb _ _ (omega arith);
  div_mono = λ x y n h.
      le→leb _ _ (div_mono_lem (x * 1000) (y * 1000) (1000 * n) (omega (arith, leb→le x y h)));
  mul_mono = λ x y n h. le→leb _ _ (
      div_mono_lem (x * (1000 * n)) (y * (1000 * n)) 1000
        (mul_mono_lem x y (1000 * n) (leb→le x y h)));
  round_mono = λ x y n h. h;
}

pub thousandths-IsOrder : IsOrder ℕ
unfolding thousandths
thousandths-IsOrder = record {
  le_refl = λ x. ground arith;
  le_trans = λ x y z h k. ground arith;
  le_total = λ x y. ground arith;
  lt-eq-not-le = λ x y. ground arith;
}
