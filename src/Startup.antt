-- ===== src/Startup.antt =====
-- worker/validate_startup.py: what a check at boot finds, and the check of the environment. `fail`
-- prints and exits, so a check passes or fails with a reason.
pub mod Checks
pub mod Environment
pub mod Files
pub mod System
pub mod Templates
pub mod Boot
use locate_anything_setup.Prelude.{
  ℕ, String, Bool, true, false, not, Option, none, some, List, [], ◌∷◌, map, filter_if,
  if◌then◌else◌,
}
use locate_anything_setup.Text.{Text, codes, is_empty, equal}
use locate_anything_setup.Inference.Config.{Environ}

pub data Validation : Type 0 where
  passed : Validation
  missing_vars drifted_vars : List String → Validation
  no_model_dir no_weights : Validation
  missing_files unpinned_py missing_pinned drifted_files : List Text → Validation
  small_weights small_vram : ℕ → Validation
  no_cuda no_device no_arch : Validation
  low_capability : ℕ × ℕ → Validation
  no_preprocessor unparsed_preprocessor : Validation
  drifted_fields : List String → Validation
  no_binary not_run failed_run unparsed_output not_an_object : Validation
  -- The keys that are missing in the output, and those that it has beyond.
  drifted_keys : List Text → List Text → Validation
  drifted_templates : List Text → Validation
  drifted_shapes : List Text → List Text → Validation

-- `if c: fail(...)`, one after the other: `fail` exits, so the first condition that holds decides.
unfoldable pub first_failure : List (Bool × Validation) → Validation
first_failure [] = passed
first_failure ((c, failure) ∷ checks) =
    let rest = first_failure checks in if c then failure else rest

abbrev pub required : List String
required =
    "LA_MODEL_DTYPE" ∷ "LA_ATTN_IMPL" ∷ "LA_GEN_TEMPERATURE" ∷ "LA_GEN_TOP_P" ∷ "LA_GEN_DO_SAMPLE"
    ∷ "LA_GEN_REP_PEN" ∷ "LA_GEN_MAX_NEW_TOKENS" ∷ "LA_GEN_N_FUTURE_TOKENS" ∷ "LA_IPC_SOCKET" ∷ []

-- The dict `canonical`.
abbrev pub canonical : List (String × Text)
canonical =
    ("LA_GEN_TEMPERATURE", codes "0.7")
    ∷ ("LA_GEN_TOP_P", codes "0.9")
    ∷ ("LA_GEN_REP_PEN", codes "1.1")
    ∷ ("LA_GEN_DO_SAMPLE", codes "1")
    ∷ ("LA_GEN_N_FUTURE_TOKENS", codes "6")
    ∷ ("LA_GEN_MAX_NEW_TOKENS", codes "8192")
    ∷ ("LA_MODEL_DTYPE", codes "bfloat16")
    ∷ ("LA_ATTN_IMPL", codes "sdpa")
    ∷ []

-- `not os.environ.get(k)`
unfoldable pub is_unset : Environ → String → Bool
is_unset env k = elim (env k) [ none ↦ true | some v ↦ is_empty v ]

-- `os.environ[k] != expected`; every key of `canonical` is set by then.
unfoldable pub is_drifted : Environ → String × Text → Bool
unfolding equal
is_drifted env (k, expected) = elim (env k) [ none ↦ true | some got ↦ not (equal got expected) ]

unfoldable pub validate_env : Environ → Validation
validate_env env =
    let missing = filter_if (is_unset env) required in
    let drift = filter_if (is_drifted env) canonical in
    if not (is_empty missing)
    then missing_vars missing
    else if not (is_empty drift)
    then drifted_vars (map (λ (d : String × Text). d.0) drift)
    else passed
