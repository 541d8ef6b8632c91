-- ===== src/Startup/Checks.antt =====
-- A sequence of checks of worker/validate_startup.py that is passed.
use locate_anything_setup.Prelude.{
  ◌≡◌, refl, sym, ap, ◌∙◌, Bool, true, false, not, ◌&&◌, List, [], ◌∷◌, All,
}
use locate_anything_setup.Startup.{Validation, passed, first_failure}

abbrev pub fails : Validation → Bool
fails passed = false
fails _ = true

-- Where all checks are passed, no condition holds.
pub first_failure-passed :
    (checks : List (Bool × Validation))
    → first_failure checks ≡ passed
    → All (λ c. fails c.1 ≡ true) checks
    → All (λ c. c.0 ≡ false) checks
unfolding first_failure
first_failure-passed [] h f = tt
first_failure-passed ((true, v) ∷ checks) h (f, fs) =
    (let no_way : true ≡ false = sym f ∙ ap fails h in cc)
first_failure-passed ((false, v) ∷ checks) h (f, fs) = (refl, first_failure-passed checks h fs)

pub not-false : (b : Bool) → not b ≡ false → b ≡ true
not-false true h = refl
not-false false h = cc

pub and_true : (a b : Bool) → a && b ≡ true → (a ≡ true) × (b ≡ true)
and_true true b h = (refl, h)
and_true false b h = cc
