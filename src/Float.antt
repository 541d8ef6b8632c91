-- ===== src/Float.antt =====
-- What the worker does with a `float`: the operations, as an interface, and the laws of IEEE 754
-- arithmetic with Python's `round` that some theorems ask for. They hold of the values that occur
-- here: finite, not negative, far below 2 ^ 53.
use locate_anything_setup.Prelude.{ℕ, ◌≤◌, ◌≡◌, Bool, true, ◌⊎◌, not}

pub record Float (F : Type 0) : Type 0 where
  -- An `int` where a `float` is wanted.
  pub of_nat : ℕ → F
  pub add : F → F → F
  pub sub : F → F → F
  pub mul : F → F → F
  pub div : F → F → F
  pub sqrt : F → F
  -- `int(x)` and `int(round(x))`, of what is not negative.
  pub trunc : F → ℕ
  pub round : F → ℕ
  -- `round(x, n)`
  pub round_to : F → ℕ → F
  pub le : F → F → Bool
  pub lt : F → F → Bool

infix 4 ◌≼◌
abbrev pub ◌≼◌ : {F : Type 0} ⦃fl : Float F⦄ → F → F → Type 0
◌≼◌ ⦃fl⦄ x y = fl.le x y ≡ true

-- Rounding is monotone, so each operation keeps the order of an argument.
pub record IsMonotone (F : Type 0) ⦃fl : Float F⦄ : Type 0 where
  pub of_nat_mono : (m n : ℕ) → m ≤ n → fl.of_nat m ≼ fl.of_nat n
  pub div_mono : (x y : F) (n : ℕ) → x ≼ y → fl.div x (fl.of_nat n) ≼ fl.div y (fl.of_nat n)
  pub mul_mono : (x y : F) (n : ℕ) → x ≼ y → fl.mul x (fl.of_nat n) ≼ fl.mul y (fl.of_nat n)
  pub round_mono : (x y : F) (n : ℕ) → x ≼ y → fl.round_to x n ≼ fl.round_to y n

-- The order of floats that are no NaN.
pub record IsOrder (F : Type 0) ⦃fl : Float F⦄ : Type 0 where
  pub le_refl : (x : F) → x ≼ x
  pub le_trans : (x y z : F) → x ≼ y → y ≼ z → x ≼ z
  pub le_total : (x y : F) → (x ≼ y) ⊎ (y ≼ x)
  pub lt-eq-not-le : (x y : F) → fl.lt x y ≡ not (fl.le y x)
