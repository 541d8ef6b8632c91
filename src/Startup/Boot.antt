-- ===== src/Startup/Boot.antt =====
-- worker/validate_startup.py, `run_all`: the checks at boot, in their order.
pub mod Passed
use locate_anything_setup.Startup.{Validation, passed, validate_env}
use locate_anything_setup.Inference.Config.{Environ}
use locate_anything_setup.Startup.Files.{ModelDir, validate_model_dir}
use locate_anything_setup.Startup.System.{
  Gpu, validate_gpu, Numbers, PreprocessorFile, validate_preprocessor_config,
}
use locate_anything_setup.Startup.Templates.{BinaryRun, validate_prompt_template_drift}

-- What the checks read of the system.
pub record Host (N : Type 0) : Type 0 where
  pub environ : Environ
  pub gpu : Gpu
  pub model_dir : ModelDir
  pub preprocessor : PreprocessorFile N
  pub la_server : BinaryRun

-- A check that fails has left the process, so the next is not made.
abbrev pub and_then : Validation → Validation → Validation
and_then passed next = next
and_then failure next = failure

unfoldable pub run_all : {N : Type 0} → Numbers N → Host N → Validation
run_all nums host = and_then (validate_env host.environ) (
    and_then (validate_gpu host.gpu) (
      and_then (validate_model_dir host.model_dir) (
        and_then (validate_preprocessor_config nums host.preprocessor)
          (validate_prompt_template_drift host.la_server))))
