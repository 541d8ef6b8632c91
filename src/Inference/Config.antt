-- ===== src/Inference/Config.antt =====
-- worker/inference.py: GenConfig and `_require_env`.
pub mod Laws
use locate_anything_setup.Prelude.{
  ℕ, String, Bool, true, false, not, ◌||◌, Option, none, some, List, [], ◌∷◌, if◌then◌else◌,
}
use locate_anything_setup.Text.{Text, codes, is_empty, equal}
use locate_anything_setup.Outcome.{
  Value, str, no_str, Outcome, ok, raise, value_error, runtime_error, env_not_set, not_zero_or_one,
  not_a_number, bad_mode, ◌>>=◌, ◌>>◌, ensure, some_or_raise,
}
use locate_anything_setup.Prompts.Requests.{Mode, fast, hybrid, slow, mode_of}

-- `os.environ`
abbrev pub Environ : Type 0
Environ = String → Option Text

-- `float(text)` and `int(text)`; `none` is their ValueError.
pub record Numerals (F : Type 0) : Type 0 where
  pub float_of : Text → Option F
  pub int_of : Text → Option ℕ

pub record GenConfig (F : Type 0) : Type 0 where
  pub temperature : F
  pub top_p : F
  pub repetition_penalty : F
  pub do_sample : Bool
  pub max_new_tokens : ℕ
  pub n_future_tokens : ℕ

-- The keyword arguments of `.generate()`; `n_future_tokens` may be absent.
pub record Kwargs (F : Type 0) : Type 0 where
  pub do_sample : Bool
  pub temperature : F
  pub top_p : F
  pub repetition_penalty : F
  pub max_new_tokens : ℕ
  pub generation_mode : Mode
  pub use_cache : Bool
  pub verbose : Bool
  pub n_future_tokens : Option ℕ

-- `_require_env`
unfoldable pub require_env : Environ → String → Outcome Text
require_env env name = elim (env name) [
  | none ↦ raise (runtime_error env_not_set)
  | some v ↦ if is_empty v then raise (runtime_error env_not_set) else ok v
]

module _ {F : Type 0} (num : Numerals F) where
  -- `float(_require_env(name))`
  unfoldable pub env_float : Environ → String → Outcome F
  env_float env name = do
    v ← require_env env name
    some_or_raise (num.float_of v) (value_error not_a_number)

  unfoldable pub env_int : Environ → String → Outcome ℕ
  env_int env name = do
    v ← require_env env name
    some_or_raise (num.int_of v) (value_error not_a_number)

  unfoldable pub from_env : Environ → Outcome (GenConfig F)
  unfolding equal
  from_env env = do
    ds ← require_env env "LA_GEN_DO_SAMPLE"
    ensure (equal ds (codes "0") || equal ds (codes "1")) (runtime_error not_zero_or_one)
    temperature ← env_float env "LA_GEN_TEMPERATURE"
    top_p ← env_float env "LA_GEN_TOP_P"
    repetition_penalty ← env_float env "LA_GEN_REP_PEN"
    max_new_tokens ← env_int env "LA_GEN_MAX_NEW_TOKENS"
    n_future_tokens ← env_int env "LA_GEN_N_FUTURE_TOKENS"
    ok (record {
      temperature = temperature;
      top_p = top_p;
      repetition_penalty = repetition_penalty;
      do_sample = equal ds (codes "1");
      max_new_tokens = max_new_tokens;
      n_future_tokens = n_future_tokens;
    })

-- `isinstance(mode, str) and mode in ("fast", "hybrid", "slow")`
unfoldable pub checked_mode : Value → Option Mode
unfolding mode_of
checked_mode (str t) = mode_of t
checked_mode no_str = none

unfoldable pub kwargs_for : {F : Type 0} → GenConfig F → Mode → Kwargs F
kwargs_for cfg mode = record {
  do_sample = cfg.do_sample;
  temperature = cfg.temperature;
  top_p = cfg.top_p;
  repetition_penalty = cfg.repetition_penalty;
  max_new_tokens = cfg.max_new_tokens;
  generation_mode = mode;
  use_cache = true;
  verbose = false;
  n_future_tokens = elim mode [ slow ↦ none | _ ↦ some cfg.n_future_tokens ];
}

unfoldable pub to_kwargs : {F : Type 0} → GenConfig F → Value → Outcome (Kwargs F)
unfolding kwargs_for checked_mode
to_kwargs cfg mode = elim (checked_mode mode) [
  | none ↦ raise (value_error bad_mode)
  | some m ↦ ok (kwargs_for cfg m)
]
