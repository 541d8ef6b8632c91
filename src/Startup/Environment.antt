-- ===== src/Startup/Environment.antt =====
-- What an environment that passes is, and what the generation parameters read from it are.
use locate_anything_setup.Prelude.{
  ℕ, String, ◌≡◌, refl, sym, ap, ◌∙◌, Bool, true, false, not, some, List, [], ◌∷◌, All, filter_if,
  filter_if-keeps, filter_if-drops, Bool-cases, inl, inr, Option-cases, if◌then◌else◌, ◌==◌, ==_iff,
  arith,
}
use locate_anything_setup.Text.{Text, codes, is_empty, equal}
use locate_anything_setup.Outcome.{ok}
use locate_anything_setup.Inference.Config.{
  Environ, Numerals, require_env, env_float, env_int, from_env,
}
use locate_anything_setup.Startup.{
  missing_vars, drifted_vars, passed, required, canonical, is_unset, is_drifted, validate_env,
}

-- A filter that leaves nothing: the test fails of every element.
pub filter_if-All :
    {A : Type 0} (p : A → Bool) (xs : List A)
    → is_empty (filter_if p xs) ≡ true
    → All (λ x. p x ≡ false) xs
filter_if-All p [] h = tt
filter_if-All p (x ∷ xs) h = elim (Bool-cases (p x)) [
  | inl e ↦ (let no : false ≡ true = ap is_empty (sym (filter_if-keeps p x xs e)) ∙ h in cc)
  | inr e ↦ (e, filter_if-All p xs (ap is_empty (sym (filter_if-drops p x xs e)) ∙ h))
]

pub equal_sound : (a b : Text) → equal a b ≡ true → a ≡ b
unfolding equal
equal_sound [] [] h = refl
equal_sound [] (b ∷ bs) h = cc
equal_sound (a ∷ as_) [] h = cc
equal_sound (a ∷ as_) (b ∷ bs) h = elim (Bool-cases (a == b)) [
  | inl e ↦
      let head : a ≡ b = (==_iff a b).0 e in
      let tail : as_ ≡ bs = equal_sound as_ bs (rw (e, equal) at h) in cc
  | inr e ↦ (let no : false ≡ true = rw (e, equal) at h in cc)
]

is_drifted-canonical :
    (env : Environ) (k : String) (want : Text)
    → is_drifted env (k, want) ≡ false
    → env k ≡ some want
unfolding is_drifted
is_drifted-canonical env k want h = elim (Option-cases (env k)) [
  | inl e ↦ (let no : true ≡ false = rw (e, is_drifted) at h in cc)
  | inr (got, e) ↦
      let q : not (equal got want) ≡ false = rw (e, is_drifted) at h in
      e ∙ ap some (equal_sound got want (ground arith))
]

no_failure :
    (a b : Bool) (xs ys : List String)
    → (if not a then missing_vars xs else if not b then drifted_vars ys else passed) ≡ passed
    → (a ≡ true) × (b ≡ true)
no_failure true true xs ys h = (refl, refl)
no_failure true false xs ys h = cc
no_failure false b xs ys h = cc

validate_env-passed :
    (env : Environ)
    → validate_env env ≡ passed
    → (is_empty (filter_if (is_unset env) required) ≡ true)
      × (is_empty (filter_if (is_drifted env) canonical) ≡ true)
unfolding validate_env
validate_env-passed env h = no_failure _ _ _ _ h

require_env-set :
    (env : Environ) (k : String) (v : Text)
    → env k ≡ some v
    → is_empty v ≡ false
    → require_env env k ≡ ok v
unfolding require_env
require_env-set env k v h n = rw (h, require_env) (rw n refl)

module _ {F : Type 0} (num : Numerals F) where
  env_float-set :
      (env : Environ) (k : String) (v : Text) (x : F)
      → env k ≡ some v
      → is_empty v ≡ false
      → num.float_of v ≡ some x
      → env_float num env k ≡ ok x
  unfolding env_float
  env_float-set env k v x h n f = rw (require_env-set env k v h n) (rw f refl)

  env_int-set :
      (env : Environ) (k : String) (v : Text) (x : ℕ)
      → env k ≡ some v
      → is_empty v ≡ false
      → num.int_of v ≡ some x
      → env_int num env k ≡ ok x
  unfolding env_int
  env_int-set env k v x h n f = rw (require_env-set env k v h n) (rw f refl)

-- Where the environment passes the check at boot, and the numerals of the canonical values are read
-- as numbers, the generation parameters are read from it without an error, and are those numbers,
-- with sampling on.
pub validate_env-from_env :
    {F : Type 0} (num : Numerals F) (env : Environ) (temperature top_p penalty : F)
    (tokens future : ℕ)
    → validate_env env ≡ passed
    → num.float_of (codes "0.7") ≡ some temperature
    → num.float_of (codes "0.9") ≡ some top_p
    → num.float_of (codes "1.1") ≡ some penalty
    → num.int_of (codes "8192") ≡ some tokens
    → num.int_of (codes "6") ≡ some future
    → from_env num env
      ≡ ok (record {
        temperature = temperature;
        top_p = top_p;
        repetition_penalty = penalty;
        do_sample = true;
        max_new_tokens = tokens;
        n_future_tokens = future;
      })
unfolding from_env
validate_env-from_env num env temperature top_p penalty tokens future h n1 n2 n3 n4 n5 =
    let (e1, (e2, (e3, (e4, (e5, (e6, rest)))))) =
      filter_if-All (is_drifted env) canonical (validate_env-passed env h).1 in
    let c1 = is_drifted-canonical env "LA_GEN_TEMPERATURE" (codes "0.7") e1 in
    let c2 = is_drifted-canonical env "LA_GEN_TOP_P" (codes "0.9") e2 in
    let c3 = is_drifted-canonical env "LA_GEN_REP_PEN" (codes "1.1") e3 in
    let c4 = is_drifted-canonical env "LA_GEN_DO_SAMPLE" (codes "1") e4 in
    let c5 = is_drifted-canonical env "LA_GEN_N_FUTURE_TOKENS" (codes "6") e5 in
    let c6 = is_drifted-canonical env "LA_GEN_MAX_NEW_TOKENS" (codes "8192") e6 in
    rw (require_env-set env "LA_GEN_DO_SAMPLE" (codes "1") c4 refl) (
      rw (env_float-set num env "LA_GEN_TEMPERATURE" (codes "0.7") temperature c1 refl n1) (
        rw (env_float-set num env "LA_GEN_TOP_P" (codes "0.9") top_p c2 refl n2) (
          rw (env_float-set num env "LA_GEN_REP_PEN" (codes "1.1") penalty c3 refl n3) (
            rw (env_int-set num env "LA_GEN_MAX_NEW_TOKENS" (codes "8192") tokens c6 refl n4) (
              rw (env_int-set num env "LA_GEN_N_FUTURE_TOKENS" (codes "6") future c5 refl n5)
                refl)))))

-- The attention of the language model.
pub validate_env-attn_impl :
    (env : Environ) → validate_env env ≡ passed → env "LA_ATTN_IMPL" ≡ some (codes "sdpa")
validate_env-attn_impl env h =
    let (e1, (e2, (e3, (e4, (e5, (e6, (e7, (e8, rest)))))))) =
      filter_if-All (is_drifted env) canonical (validate_env-passed env h).1 in
    is_drifted-canonical env "LA_ATTN_IMPL" (codes "sdpa") e8
