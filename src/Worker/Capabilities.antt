-- ===== src/Worker/Capabilities.antt =====
-- worker/la_worker.py, `capabilities` and `info`: what the worker says of itself. The path of the
-- model directory, and what torch says of the GPU, are parameters.
pub mod Limits
use locate_anything_setup.Prelude.{ℕ, ◌-◌, ◌*◌, Bool, true, Option, List, [], ◌∷◌}
use locate_anything_setup.Float.{Float}
use locate_anything_setup.Text.{Text, codes}
use locate_anything_setup.Pixel.{Summary, summarize}
use locate_anything_setup.Inference.Config.{GenConfig}
use locate_anything_setup.Calibration.{CalibrationResult, to_json}
use locate_anything_setup.Worker.App.{WorkerApp}

-- The dict of `capabilities`; the constant URL and the presets, which Prompts/Presets has, are left
-- out.
pub record Capabilities (F : Type 0) : Type 0 where
  pub model : Text
  pub model_dir : Text
  pub model_manifest_sha256 : Option Text
  pub dtype : Text
  pub attn_impl : Text
  pub max_image_dim : ℕ
  pub in_token_limit : ℕ
  pub max_llm_tokens_per_image : ℕ
  pub patch_px : ℕ
  pub llm_token_px : ℕ
  pub max_prompt_tokens : ℕ
  pub trained_generation_params : GenConfig F
  pub supported_generation_modes : List Text
  pub calibration : CalibrationResult F

-- What `info` says. The numbers of GiB are rounded to two digits.
pub record Info (F : Type 0) : Type 0 where
  pub is_ok : Bool
  pub model_loaded : Bool
  pub torch_arches : List Text
  pub gpu_name : Text
  pub gpu_total_mem_gib : F
  pub gpu_free_mem_gib : F
  pub gpu_used_mem_gib : F
  pub pixel_token_examples : List (Text × Option (Summary F))

module _ {F : Type 0} ⦃fl : Float F⦄ where
  unfoldable pub capabilities : Text → WorkerApp F → Capabilities F
  capabilities model_dir app = record {
    model = codes "nvidia/LocateAnything-3B";
    model_dir = model_dir;
    model_manifest_sha256 = app.model_manifest_sha256;
    dtype = codes "bfloat16";
    attn_impl = app.engine.attn_impl;
    max_image_dim = 2240;
    in_token_limit = 25600;
    max_llm_tokens_per_image = 6400;
    patch_px = 14;
    llm_token_px = 28;
    max_prompt_tokens = 16384;
    trained_generation_params = app.engine.gen_cfg;
    supported_generation_modes = codes "fast" ∷ codes "hybrid" ∷ codes "slow" ∷ [];
    calibration = to_json app.calibration;
  }

  -- `round(b / (1024 ** 3), 2)`
  unfoldable pub gib : ℕ → F
  gib b = fl.round_to (fl.div (fl.of_nat b) (fl.of_nat 1073741824)) 2

  unfoldable pub info : List Text → Text → ℕ × ℕ → Info F
  info arches name (free_b, total_b) = record {
    is_ok = true;
    model_loaded = true;
    torch_arches = arches;
    gpu_name = name;
    gpu_total_mem_gib = gib total_b;
    gpu_free_mem_gib = gib free_b;
    gpu_used_mem_gib = gib (total_b - free_b);
    pixel_token_examples =
        (codes "1080p", summarize 1920 1080)
        ∷ (codes "1440p", summarize 2560 1440)
        ∷ (codes "4K", summarize 3840 2160)
        ∷ (codes "square_2240", summarize 2240 2240)
        ∷ [];
  }
