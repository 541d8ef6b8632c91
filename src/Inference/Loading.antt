-- ===== src/Inference/Loading.antt =====
-- worker/inference.py: what loading the model can end in, and what it reads of the interpreter: the
-- loaded modules, their classes and functions, and the configuration. torch, transformers, flash_attn
-- and the code of the model are parameters.
pub mod Chain
pub mod Vision
pub mod Language
pub mod Encoder
pub mod Engine
use locate_anything_setup.Prelude.{
  ℕ, Bool, true, false, ◌&&◌, map, Option, none, some, List, [], ◌∷◌, any, if◌then◌else◌,
}
use locate_anything_setup.Text.{Text, codes, equal, ends_with}
use locate_anything_setup.Outcome.{Outcome, ok, raise, Exception}
use locate_anything_setup.Startup.{Validation, passed}

-- Why one of the functions raises a RuntimeError itself.
pub data Refusal : Type 0 where
  unsupported_dtype cuda_unavailable old_gpu no_text_config : Refusal
  no_flash_attn flash_attn_version no_varlen no_vit_import no_vit_module : Refusal
  dispatch_drift no_multihead slot_remapped signature_drift : Refusal
  no_vision_config vision_drift vision_impl_set : Refusal
  llm_impl_lost vit_impl_lost no_marker no_encoder block_impl_lost : Refusal
  no_qwen2_module no_forward base_drift attention_not_patched no_dispatch dispatch_not_patched :
      Refusal

-- `validate_model_dir` leaves the process; all else raises.
pub data Load (A : Type 0) : Type 0 where
  done : A → Load A
  refused : Refusal → Load A
  exited : Validation → Load A
  raised : Exception → Load A

infixl 5 ◌>>=◌ ◌>>◌
abbrev pub ◌>>=◌ : {A B : Type 0} → Load A → (A → Load B) → Load B
done a >>= f = f a
refused r >>= f = refused r
exited v >>= f = exited v
raised e >>= f = raised e

abbrev pub ◌>>◌ : {B : Type 0} → Load (Unit {0}) → Load B → Load B
m >> k = m >>= λ _. k

-- `if not b: raise RuntimeError(...)`
abbrev pub check : Bool → Refusal → Load (Unit {0})
check true r = done tt
check false r = refused r

abbrev pub from_option : {A : Type 0} → Option A → Refusal → Load A
from_option none r = refused r
from_option (some a) r = done a

abbrev pub from_outcome : {A : Type 0} → Outcome A → Load A
from_outcome (ok a) = done a
from_outcome (raise e) = raised e

abbrev pub from_validation : Validation → Load (Unit {0})
from_validation passed = done tt
from_validation v = exited v

-- A function object: which it is, the names of its parameters, and its `_la_sdpa_patched`.
pub record Function : Type 0 where
  pub identity : ℕ
  pub params : List Text
  pub is_patched : Bool

-- The function that a method is bound to; the wrapper has the parameters `self, *args, **kwargs`.
pub data Forward : Type 0 where
  original : List Text → Forward
  patched : Forward → Forward

-- A class: its own attributes, and its `__mro__` behind itself, in which attributes are looked up.
pub record Class : Type 0 where
  pub name : Text
  pub bases : List ℕ
  pub forward : Option Forward
  pub is_tagged : Bool

-- VL_VISION_ATTENTION_FUNCTIONS
abbrev pub Dispatch : Type 0
Dispatch = List (Text × Function)

-- A loaded module with the attributes that are looked for; no two modules share a `dispatch`.
pub record PyModule : Type 0 where
  pub name : Text
  pub qwen2_class : Option ℕ
  pub sdpa_attention : Option Function
  pub multihead_attention : Option Function
  pub dispatch : Option Dispatch

abbrev pub is_some : {A : Type 0} → Option A → Bool
is_some none = false
is_some (some a) = true

abbrev pub all : {A : Type 0} → (A → Bool) → List A → Bool
all p [] = true
all p (x ∷ xs) = p x && all p xs

-- A loop of checks, each of which may leave it.
abbrev pub for_each : {A : Type 0} → (A → Load (Unit {0})) → List A → Load (Unit {0})
for_each f [] = done tt
for_each f (x ∷ xs) = f x >> for_each f xs

-- `in` of a list or a tuple of texts.
unfoldable pub has_text : List Text → Text → Bool
unfolding equal
has_text ts t = any (equal t) ts

unfoldable pub same_params : List Text → List Text → Bool
unfolding equal
same_params [] [] = true
same_params (a ∷ as_) (b ∷ bs) = equal a b && same_params as_ bs
same_params _ _ = false

unfoldable pub lookup_fn : Text → Dispatch → Option Function
unfolding equal
lookup_fn key [] = none
lookup_fn key ((k, f) ∷ rest) =
    let found = lookup_fn key rest in if equal k key then some f else found

-- EXPECTED_VIT_DISPATCH_KEYS
abbrev pub dispatch_keys : List Text
dispatch_keys = codes "flash_attention_2" ∷ codes "sdpa" ∷ codes "eager" ∷ []

-- EXPECTED_VIT_SDPA_PARAMS and EXPECTED_FA2_PARAMS
abbrev pub attention_params : List Text
attention_params =
    codes "q" ∷ codes "k" ∷ codes "v" ∷ codes "q_cu_seqlens" ∷ codes "k_cu_seqlens" ∷ []

-- `frozenset(d.keys()) == EXPECTED_VIT_DISPATCH_KEYS`
unfoldable pub has_dispatch_keys : Dispatch → Bool
unfolding has_text
has_dispatch_keys d =
    all (λ (e : Text × Function). has_text dispatch_keys e.0) d
    && all (has_text (map (λ (e : Text × Function). e.0) d)) dispatch_keys

unfoldable pub is_named : Text → PyModule → Bool
unfolding ends_with
is_named suffix mod_ = ends_with suffix mod_.name
