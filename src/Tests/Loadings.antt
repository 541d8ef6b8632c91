-- ===== src/Tests/Loadings.antt =====
-- A load of the model, by one runtime.

use locate_anything_setup.Inference.Loading.Vision.{
  check_flash_attn, check_vit, Config, VisionConfig, FlashAttn, fa2, forced, force_vit_flash_attn_2,
}
use locate_anything_setup.Prelude.{ℕ, ◌≡◌, refl, true, some, [], ◌∷◌}
use locate_anything_setup.Text.{Text, codes}
use locate_anything_setup.Outcome.{ok}
use locate_anything_setup.Tests.Startups.{image_env, numerals, good_dir, good_dir_passed}
use locate_anything_setup.Inference.Config.{GenConfig}
use locate_anything_setup.Inference.Loading.{
  old_gpu, PyModule, Function, Forward, original, patched, Class, Load, done, refused,
  attention_params,
}
use locate_anything_setup.Inference.Loading.Engine.{Model, Runtime, Engine, load_engine, configure}
use locate_anything_setup.Inference.Loading.Engine.Ready.{IsReady, load_engine-IsReady}
use locate_anything_setup.Tests.Patches.{
  loaded_modules, loaded_classes, vision, given_config, flash_attn, patched_classes,
  patched_modules, loaded_classes_patched, loaded_modules_patched,
}

abbrev loaded_model : Model
loaded_model = record {
  llm_impl = some (codes "sdpa");
  vit_impl = some fa2;
  is_forced = true;
  blocks = some (some fa2 ∷ some fa2 ∷ []);
  live_attn = 1;
  modules = loaded_modules;
  classes = loaded_classes;
}

abbrev pub runtime : Runtime
runtime = record {
  is_available = true;
  capability = (12, 0);
  model_dir = good_dir;
  tokenizer = ok tt;
  processor = ok tt;
  auto_config = ok given_config;
  flash_attn = flash_attn;
  imported = some loaded_modules;
  auto_model = λ config. ok loaded_model;
  new_id = 9;
}

abbrev overridden_config : Config
overridden_config = record {
  attn_impl = some (codes "sdpa");
  text_impl = some (some (codes "sdpa"));
  vision_config = some (forced vision);
}

abbrev pub loaded_engine : Engine ℕ
loaded_engine = record {
  attn_impl = codes "sdpa";
  gen_cfg = record {
    temperature = 700;
    top_p = 900;
    repetition_penalty = 1100;
    do_sample = true;
    max_new_tokens = 8192;
    n_future_tokens = 6;
  };
  model = record loaded_model { modules = patched_modules; classes = patched_classes };
}

configured : configure (codes "sdpa") runtime ≡ done overridden_config
unfolding configure locate_anything_setup.Inference.Loading.Engine.override_impl
    force_vit_flash_attn_2 locate_anything_setup.Inference.Loading.Vision.check_flash_attn
    locate_anything_setup.Inference.Loading.Vision.is_text
    locate_anything_setup.Inference.Loading.Vision.check_vit
    locate_anything_setup.Inference.Loading.Vision.vit_dispatchers
    locate_anything_setup.Inference.Loading.is_named
    locate_anything_setup.Inference.Loading.Vision.check_vit_module
    locate_anything_setup.Inference.Loading.Vision.check_dispatch
    locate_anything_setup.Inference.Loading.has_dispatch_keys
    locate_anything_setup.Inference.Loading.Vision.is_same
    locate_anything_setup.Inference.Loading.lookup_fn
    locate_anything_setup.Inference.Loading.same_params
    locate_anything_setup.Inference.Loading.Vision.force_config
    locate_anything_setup.Inference.Loading.Vision.is_moonvit
    locate_anything_setup.Inference.Loading.Vision.is_number
    locate_anything_setup.Inference.Loading.Vision.force_impl
    locate_anything_setup.Inference.Loading.has_text locate_anything_setup.Text.ends_with
    locate_anything_setup.Text.equal
configured = rw good_dir_passed refl

pub loaded_engine_done : load_engine numerals image_env (codes "cuda") runtime ≡ done loaded_engine
unfolding load_engine image_env numerals locate_anything_setup.Tests.Startups.lookup
    locate_anything_setup.Inference.Config.require_env
    locate_anything_setup.Inference.Loading.Engine.parse_dtype
    locate_anything_setup.Inference.Config.from_env locate_anything_setup.Inference.Config.env_float
    locate_anything_setup.Inference.Config.env_int
    locate_anything_setup.Inference.Loading.Engine.check_gpu locate_anything_setup.Text.equal
    locate_anything_setup.Text.strip locate_anything_setup.Text.lstrip
    locate_anything_setup.Text.rstrip locate_anything_setup.Text.is_space
    locate_anything_setup.Inference.Image.lower
    locate_anything_setup.Inference.Loading.Engine.verify_loaded
    locate_anything_setup.Inference.Loading.Engine.patch_model
    locate_anything_setup.Inference.Loading.Vision.is_text
loaded_engine_done = rw configured (rw loaded_classes_patched (rw loaded_modules_patched refl))

-- An old GPU is refused.
old_gpu_refused :
    load_engine numerals image_env (codes "cuda") (record runtime { capability = (9, 0) })
    ≡ refused old_gpu
unfolding load_engine image_env numerals locate_anything_setup.Tests.Startups.lookup
    locate_anything_setup.Inference.Config.require_env
    locate_anything_setup.Inference.Loading.Engine.parse_dtype
    locate_anything_setup.Inference.Config.from_env locate_anything_setup.Inference.Config.env_float
    locate_anything_setup.Inference.Config.env_int
    locate_anything_setup.Inference.Loading.Engine.check_gpu locate_anything_setup.Text.equal
    locate_anything_setup.Text.strip locate_anything_setup.Text.lstrip
    locate_anything_setup.Text.rstrip locate_anything_setup.Text.is_space
    locate_anything_setup.Inference.Image.lower
    locate_anything_setup.Inference.Loading.Engine.verify_loaded
    locate_anything_setup.Inference.Loading.Engine.patch_model
    locate_anything_setup.Inference.Loading.Vision.is_text
old_gpu_refused = refl

load_engine-IsReady_example : IsReady numerals image_env runtime loaded_engine
load_engine-IsReady_example =
    load_engine-IsReady numerals image_env (codes "cuda") runtime loaded_engine loaded_engine_done
