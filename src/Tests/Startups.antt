-- ===== src/Tests/Startups.antt =====
-- The check of the environment at boot, of an environment with the canonical values.
use locate_anything_setup.Prelude.{
  ℕ, String, ◌≡◌, refl, Option, some, none, true, List, [], ◌∷◌, if◌then◌else◌, ◌++◌, All, str_eq,
  ◌==◌, ◌*◌, map,
}
use locate_anything_setup.Text.{Text, codes, equal}
use locate_anything_setup.Outcome.{ok}
use locate_anything_setup.Inference.Config.{Environ, Numerals, from_env}
use mathlib.Core.List.{Memᴰ}
use locate_anything_setup.Startup.System.{
  Gpu, validate_preprocessor_config, Numbers, FieldValue, number, numbers, parsed, validate_gpu,
}
use locate_anything_setup.Startup.System.Fields.{Planned}
use locate_anything_setup.Startup.Templates.{
  BinaryRun, validate_prompt_template_drift, Constants, canonical_templates, printed, constants,
  constant_at,
}
use locate_anything_setup.Startup.Boot.{Host, run_all}
use locate_anything_setup.Startup.Boot.Passed.{run_all-passed}
use locate_anything_setup.Startup.Files.{ModelDir, pinned_py, pinned_weight, validate_model_dir}
use locate_anything_setup.Startup.{canonical, passed, validate_env}
use locate_anything_setup.Startup.Environment.{validate_env-from_env}

unfoldable pub lookup : List (String × Text) → String → Option Text
unfolding equal
lookup [] name = none
lookup ((k, v) ∷ rest) name =
    let found = lookup rest name in if equal (codes k) (codes name) then some v else found

unfoldable pub image_env : Environ
unfolding lookup
image_env = lookup (("LA_IPC_SOCKET", codes "/run/la.sock") ∷ canonical)

unfoldable pub numerals : Numerals ℕ
unfolding lookup
numerals = record {
  float_of = λ t.
      if equal t (codes "0.7")
      then some 700
      else if equal t (codes "0.9")
      then some 900
      else if equal t (codes "1.1")
      then some 1100
      else none;
  int_of = λ t.
      if equal t (codes "8192") then some 8192 else if equal t (codes "6") then some 6 else none;
}

pub image_env_passed : validate_env image_env ≡ passed
unfolding validate_env locate_anything_setup.Startup.is_unset image_env
    locate_anything_setup.Startup.is_drifted
image_env_passed = refl

validate_env-from_env_example :
    from_env numerals image_env
    ≡ ok (record {
      temperature = 700;
      top_p = 900;
      repetition_penalty = 1100;
      do_sample = true;
      max_new_tokens = 8192;
      n_future_tokens = 6;
    })
unfolding numerals
validate_env-from_env_example =
    validate_env-from_env numerals image_env 700 900 1100 8192 6 image_env_passed refl refl refl
      refl refl

-- The content that the pins ask for, of every pinned file.
unfoldable pub pinned_sha : List (Text × Text) → Text → Text
unfolding equal
pinned_sha [] name = []
pinned_sha ((k, sha) ∷ rest) name =
    let found = pinned_sha rest name in if equal k name then sha else found

abbrev pub good_dir : ModelDir
good_dir = record {
  is_dir = true;
  is_file = λ name. true;
  py_names = codes "modeling_vit.py" ∷ codes "generate_utils.py" ∷ [];
  weight_sizes = 5000000000 ∷ 2600000000 ∷ [];
  sha256_of_file = λ name. pinned_sha (pinned_py ++ pinned_weight) name;
}

pub good_dir_passed : validate_model_dir good_dir ≡ passed
unfolding validate_model_dir locate_anything_setup.Startup.first_failure
    locate_anything_setup.Startup.Files.checks_of locate_anything_setup.Startup.Files.required_files
    locate_anything_setup.Startup.Files.is_pinned pinned_py
    locate_anything_setup.Startup.Files.sum_sizes pinned_weight
    locate_anything_setup.Startup.Files.is_mismatch pinned_sha
good_dir_passed = refl

-- Numbers in tenths.
abbrev pub tenths : Numbers ℕ
tenths = record { is_nat = λ x n. x == n * 10; is_half = λ x. x == 5 }

abbrev halves : FieldValue ℕ
halves = numbers (some 5 ∷ some 5 ∷ some 5 ∷ [])

abbrev good_config : String → Option (FieldValue ℕ)
good_config k =
    if str_eq k "image_processor_type"
    then some (FieldValue.text (codes "LocateAnythingImageProcessor"))
    else if str_eq k "processor_class"
    then some (FieldValue.text (codes "LocateAnythingProcessor"))
    else if str_eq k "in_token_limit"
    then some (number 256000)
    else if str_eq k "patch_size"
    then some (number 140)
    else if str_eq k "merge_kernel_size"
    then some (numbers (some 20 ∷ some 20 ∷ []))
    else if str_eq k "image_mean"
    then some halves
    else if str_eq k "image_std"
    then some halves
    else none

abbrev good_gpu : Gpu
good_gpu = record {
  is_available = true;
  device_count = 1;
  capability = (12, 0);
  total_memory = 33679998976;
  arch_list = codes "sm_90" ∷ codes "sm_120" ∷ [];
}

abbrev good_server : BinaryRun
good_server = printed (constants canonical_templates)

abbrev pub good_host : Host ℕ
good_host = record {
  environ = image_env;
  gpu = good_gpu;
  model_dir = good_dir;
  preprocessor = parsed good_config;
  la_server = good_server;
}

good_gpu_passed : validate_gpu good_gpu ≡ passed
unfolding validate_gpu locate_anything_setup.Startup.first_failure
    locate_anything_setup.Startup.System.gpu_checks locate_anything_setup.Text.starts_with
good_gpu_passed = refl

good_config_passed : validate_preprocessor_config tenths (parsed good_config) ≡ passed
unfolding validate_preprocessor_config locate_anything_setup.Startup.first_failure
    locate_anything_setup.Startup.System.is_field_drift
    locate_anything_setup.Startup.System.same_value
good_config_passed = refl

good_server_passed : validate_prompt_template_drift good_server ≡ passed
unfolding validate_prompt_template_drift locate_anything_setup.Startup.first_failure
    locate_anything_setup.Startup.Templates.template_checks
    locate_anything_setup.Startup.Templates.keys_differ
    locate_anything_setup.Startup.Templates.only_in canonical_templates
    locate_anything_setup.Startup.Templates.is_template_drift constant_at
    locate_anything_setup.Startup.Templates.same_template
    locate_anything_setup.Startup.Templates.expected_shape_keys
good_server_passed = refl

pub good_host_passed : run_all tenths good_host ≡ passed
unfolding run_all
good_host_passed =
    rw image_env_passed
      (rw good_gpu_passed (rw good_dir_passed (rw good_config_passed good_server_passed)))

run_all-passed_example :
    (validate_env image_env ≡ passed)
    × (validate_gpu good_gpu ≡ passed)
    × All
        (λ pin. pinned_sha (pinned_py ++ pinned_weight) pin.0 ≡ pin.1)
        (pinned_py ++ pinned_weight)
    × All
        (λ name.
          (sha : Text) × (Memᴰ (name, sha) pinned_py)
          × (pinned_sha (pinned_py ++ pinned_weight) name ≡ sha))
        (codes "modeling_vit.py" ∷ codes "generate_utils.py" ∷ [])
    × ((cfg : String → Option (FieldValue ℕ)) × (parsed good_config ≡ parsed cfg)
        × Planned tenths cfg)
    × ((rust : Constants) × (printed (constants canonical_templates) ≡ printed (constants rust))
        × All (λ c. constant_at c.0 rust ≡ some c.1) canonical_templates
        × All (λ key. Memᴰ key (map (λ c. c.0) canonical_templates)) (map (λ c. c.0) rust))
run_all-passed_example = run_all-passed tenths good_host good_host_passed
