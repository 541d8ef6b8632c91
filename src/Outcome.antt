-- ===== src/Outcome.antt =====
-- Python's exceptions as values: those that some handler of the worker tells apart, and why the
-- worker's own code raised one. A message is its cause; `foreign` is what a library said.
use locate_anything_setup.Prelude.{Bool, true, false, Option, none, some, ◌≡◌, refl}
use locate_anything_setup.Text.{Text}

-- A value of a header or of a dynamic argument: a `str`, or something else.
pub data Value : Type 0 where
  str : Text → Value
  no_str : Value

pub data Cause : Type 0 where
  foreign : Cause
  env_not_set not_zero_or_one not_a_number : Cause
  bad_mode empty_prompt unknown_task empty_jpeg : Cause
  not_decoded too_many_patches grid_too_large no_plan : Cause
  wrong_prefix wrong_suffix wrong_vision_info missing_key : Cause
  bad_point_prompt bad_template : Cause
  no_calibration_image unreadable_image empty_image no_runs no_output : Cause
  frame_too_large unknown_code : Cause

pub data Exception : Type 0 where
  value_error runtime_error : Cause → Exception
  -- torch.OutOfMemoryError and asyncio.TimeoutError
  out_of_memory timed_out : Exception
  connection_error : Exception
  other_error : Cause → Exception

pub data Outcome (A : Type 0) : Type 0 where
  ok : A → Outcome A
  raise : Exception → Outcome A

infixl 5 ◌>>=◌ ◌>>◌
abbrev pub ◌>>=◌ : {A B : Type 0} → Outcome A → (A → Outcome B) → Outcome B
ok a >>= f = f a
raise e >>= f = raise e

abbrev pub ◌>>◌ : {B : Type 0} → Outcome (Unit {0}) → Outcome B → Outcome B
m >> k = m >>= λ _. k

-- `if not b: raise e`
abbrev pub ensure : Bool → Exception → Outcome (Unit {0})
ensure true e = ok tt
ensure false e = raise e

abbrev pub some_or_raise : {A : Type 0} → Option A → Exception → Outcome A
some_or_raise none e = raise e
some_or_raise (some a) e = ok a

pub >>=-eq-ok :
    {A B : Type 0} (m : Outcome A) (f : A → Outcome B) (b : B)
    → (m >>= f) ≡ ok b
    → (a : A) × (m ≡ ok a) × (f a ≡ ok b)
>>=-eq-ok (ok a) f b h = (a, refl, h)
>>=-eq-ok (raise e) f b h = cc
