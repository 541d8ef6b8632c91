-- ===== src/Startup/Boot/Passed.antt =====
-- A host that passes all checks.
use locate_anything_setup.Prelude.{String, ◌≡◌, refl, ap, true, false, Option, some, ◌++◌, map, All}
use mathlib.Core.List.{Memᴰ}
use locate_anything_setup.Prelude.Members.{All-map}
use locate_anything_setup.Text.{Text}
use locate_anything_setup.Startup.{Validation, passed, validate_env}
use locate_anything_setup.Startup.Checks.{fails}
use locate_anything_setup.Startup.Files.{pinned_py, pinned_weight}
use locate_anything_setup.Startup.Files.Pinned.{validate_model_dir-pinned}
use locate_anything_setup.Startup.System.{Numbers, FieldValue, parsed, validate_gpu}
use locate_anything_setup.Startup.System.Fields.{Planned, validate_preprocessor_config-passed}
use locate_anything_setup.Startup.Templates.{
  Constants, canonical_templates, printed, constants, constant_at,
}
use locate_anything_setup.Startup.Templates.Agree.{validate_prompt_template_drift-passed}
use locate_anything_setup.Startup.Boot.{Host, and_then, run_all}

and_then-passed : (v next : Validation) → and_then v next ≡ passed → (v ≡ passed) × (next ≡ passed)
and_then-passed passed next h = (refl, h)
and_then-passed failure next h = (let no_way : true ≡ false = ap fails h in cc)

-- Where all checks at boot pass: those of the environment and of the GPU do; every pinned file has
-- the content of its pin, and every Python file of the model directory is a pinned one with that
-- content; the preprocessor configuration has the token limit, the patch size and the merge kernel
-- that the resize plan is made with; and the Rust binary prints the templates of worker/prompts.py,
-- with the same values and no other keys.
pub run_all-passed :
    {N : Type 0} (nums : Numbers N) (host : Host N)
    → run_all nums host ≡ passed
    → (validate_env host.environ ≡ passed)
      × (validate_gpu host.gpu ≡ passed)
      × All (λ pin. host.model_dir.sha256_of_file pin.0 ≡ pin.1) (pinned_py ++ pinned_weight)
      × All
          (λ name.
            (sha : Text) × (Memᴰ (name, sha) pinned_py)
            × (host.model_dir.sha256_of_file name ≡ sha))
          host.model_dir.py_names
      × ((cfg : String → Option (FieldValue N)) × (host.preprocessor ≡ parsed cfg)
          × Planned nums cfg)
      × ((rust : Constants) × (host.la_server ≡ printed (constants rust))
          × All (λ c. constant_at c.0 rust ≡ some c.1) canonical_templates
          × All (λ key. Memᴰ key (map (λ c. c.0) canonical_templates)) (map (λ c. c.0) rust))
unfolding run_all
run_all-passed nums host h =
    let (env, h1) = and_then-passed _ _ h in
    let (gpu, h2) = and_then-passed _ _ h1 in
    let (dir, h3) = and_then-passed _ _ h2 in
    let (file, server) = and_then-passed _ _ h3 in
    let (pins, py_files) = validate_model_dir-pinned host.model_dir dir in
    (
      env,
      gpu,
      All-map _ (λ pin both. both.1) pins,
      py_files,
      validate_preprocessor_config-passed nums host.preprocessor file,
      validate_prompt_template_drift-passed host.la_server server,
    )
