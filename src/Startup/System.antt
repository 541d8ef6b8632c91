-- ===== src/Startup/System.antt =====
-- worker/validate_startup.py: the checks of the GPU and of preprocessor_config.json. What torch and
-- json return is a parameter.
pub mod Fields
use locate_anything_setup.Prelude.{
  ℕ, zero, suc, String, Bool, true, false, not, Option, none, some, List, [], ◌∷◌, ◌==◌, ◌&&◌, map,
  filter_if, any, ltb,
}
use locate_anything_setup.Text.{Text, codes, is_empty, equal}
use locate_anything_setup.Inference.Image.{contains}
use locate_anything_setup.Startup.{
  Validation, passed, no_cuda, no_device, low_capability, small_vram, no_arch, no_preprocessor,
  unparsed_preprocessor, drifted_fields, first_failure,
}

-- What `torch.cuda` says of the first device; the memory is in bytes.
pub record Gpu : Type 0 where
  pub is_available : Bool
  pub device_count : ℕ
  pub capability : ℕ × ℕ
  pub total_memory : ℕ
  pub arch_list : List Text

-- `total_memory / 1e9 < 24` is a comparison with 24 * 10 ^ 9 bytes.
unfoldable pub gpu_checks : Gpu → List (Bool × Validation)
unfolding contains
gpu_checks gpu =
    (not gpu.is_available, no_cuda)
    ∷ (gpu.device_count == 0, no_device)
    ∷ (ltb gpu.capability.0 12, low_capability gpu.capability)
    ∷ (ltb gpu.total_memory 24000000000, small_vram gpu.total_memory)
    ∷ (not (any (contains (codes "sm_120")) gpu.arch_list), no_arch)
    ∷ []

unfoldable pub validate_gpu : Gpu → Validation
validate_gpu gpu = first_failure (gpu_checks gpu)

-- Python's `==` of a JSON number with an `int`, and with 0.5.
pub record Numbers (N : Type 0) : Type 0 where
  pub is_nat : N → ℕ → Bool
  pub is_half : N → Bool

-- A value of the parsed file; `none` is an item of a list that is no number.
pub data FieldValue (N : Type 0) : Type 0 where
  text : Text → FieldValue N
  number : N → FieldValue N
  numbers : List (Option N) → FieldValue N
  other : FieldValue N

pub data Wanted : Type 0 where
  want_text : Text → Wanted
  want_nat : ℕ → Wanted
  want_nats : List ℕ → Wanted
  want_halves : ℕ → Wanted

-- EXPECTED
abbrev pub expected_fields : List (String × Wanted)
expected_fields =
    ("image_processor_type", want_text (codes "LocateAnythingImageProcessor"))
    ∷ ("processor_class", want_text (codes "LocateAnythingProcessor"))
    ∷ ("in_token_limit", want_nat 25600)
    ∷ ("patch_size", want_nat 14)
    ∷ ("merge_kernel_size", want_nats (2 ∷ 2 ∷ []))
    ∷ ("image_mean", want_halves 3)
    ∷ ("image_std", want_halves 3)
    ∷ []

-- The file as it is read; one that holds no object is no `parsed` one.
pub data PreprocessorFile (N : Type 0) : Type 0 where
  absent unparsed : PreprocessorFile N
  parsed : (String → Option (FieldValue N)) → PreprocessorFile N

module _ {N : Type 0} (nums : Numbers N) where
  unfoldable pub are_nats : List (Option N) → List ℕ → Bool
  are_nats [] [] = true
  are_nats (some x ∷ xs) (n ∷ ns) = nums.is_nat x n && are_nats xs ns
  are_nats _ _ = false

  unfoldable pub are_halves : List (Option N) → ℕ → Bool
  are_halves [] zero = true
  are_halves (some x ∷ xs) (suc n) = nums.is_half x && are_halves xs n
  are_halves _ _ = false

  -- `got == want`
  unfoldable pub same_value : FieldValue N → Wanted → Bool
  unfolding equal are_nats are_halves
  same_value (text t) (want_text w) = equal t w
  same_value (number x) (want_nat n) = nums.is_nat x n
  same_value (numbers xs) (want_nats ns) = are_nats xs ns
  same_value (numbers xs) (want_halves n) = are_halves xs n
  same_value _ _ = false

  -- A missing key, or another value.
  unfoldable pub is_field_drift : (String → Option (FieldValue N)) → String × Wanted → Bool
  is_field_drift cfg (key, want) = elim (cfg key) [
    | none ↦ true
    | some got ↦ not (same_value got want)
  ]

  unfoldable pub validate_preprocessor_config : PreprocessorFile N → Validation
  validate_preprocessor_config absent = no_preprocessor
  validate_preprocessor_config unparsed = unparsed_preprocessor
  validate_preprocessor_config (parsed cfg) =
      let drift = filter_if (is_field_drift cfg) expected_fields in
      first_failure
        ((not (is_empty drift), drifted_fields (map (λ (d : String × Wanted). d.0) drift)) ∷ [])
