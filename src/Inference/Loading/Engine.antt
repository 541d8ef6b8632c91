-- ===== src/Inference/Loading/Engine.antt =====
-- worker/inference.py, `LocateAnythingInference.__init__`: the load, with its checks in their order.
pub mod Verified
pub mod Ready
use locate_anything_setup.Outcome.{Outcome}
use locate_anything_setup.Inference.Config.{Environ, Numerals, GenConfig, require_env, from_env}
use locate_anything_setup.Inference.Image.{lower}
use locate_anything_setup.Startup.Files.{ModelDir, validate_model_dir}
use locate_anything_setup.Inference.Loading.Vision.{
  VisionConfig, Config, FlashAttn, fa2, is_text, force_vit_flash_attn_2,
}
use locate_anything_setup.Inference.Loading.Language.{Classes, patch_sdpa_to_mem_efficient}
use locate_anything_setup.Inference.Loading.Encoder.{patch_vit_sdpa_to_mem_efficient}
use locate_anything_setup.Inference.Loading.{
  Refusal, unsupported_dtype, cuda_unavailable, old_gpu, no_text_config, no_flash_attn,
  flash_attn_version, no_varlen, no_vit_import, no_vit_module, dispatch_drift, no_multihead,
  slot_remapped, signature_drift, no_vision_config, vision_drift, vision_impl_set, llm_impl_lost,
  vit_impl_lost, no_marker, no_encoder, block_impl_lost, no_qwen2_module, no_forward, base_drift,
  attention_not_patched, no_dispatch, dispatch_not_patched, Load, done, refused, exited, raised,
  ◌>>=◌, ◌>>◌, check, from_option, from_outcome, from_validation, Function, Forward, original,
  patched, Class, Dispatch, PyModule, all, for_each, has_text, same_params, lookup_fn,
  dispatch_keys, attention_params, has_dispatch_keys, is_named, is_some,
}
use locate_anything_setup.Prelude.{
  filter_if, ℕ, Bool, true, false, not, ◌&&◌, ◌||◌, Option, none, some, List, [], ◌∷◌, map, ltb,
}
use locate_anything_setup.Text.{is_empty, Text, codes, equal, strip}

-- What `from_pretrained` of the model leaves. `blocks` is none if there is no encoder; `live_attn` is
-- the class of the attention of the first layer; `is_forced` is the marker as it is read again.
pub record Model : Type 0 where
  pub llm_impl : Option Text
  pub vit_impl : Option Text
  pub is_forced : Bool
  pub blocks : Option (List (Option Text))
  pub live_attn : ℕ
  pub modules : List PyModule
  pub classes : Classes

-- What the constructor calls. `new_id` is the identity of the function that is made.
pub record Runtime : Type 0 where
  pub is_available : Bool
  pub capability : ℕ × ℕ
  pub model_dir : ModelDir
  pub tokenizer : Outcome (Unit {0})
  pub processor : Outcome (Unit {0})
  pub auto_config : Outcome Config
  pub flash_attn : FlashAttn
  pub imported : Option (List PyModule)
  pub auto_model : Config → Outcome Model
  pub new_id : ℕ

-- The engine that is made; `dtype` is torch.bfloat16.
pub record Engine (F : Type 0) : Type 0 where
  pub attn_impl : Text
  pub gen_cfg : GenConfig F
  pub model : Model

-- `s.strip().lower() in ("bfloat16", "bf16")`: no letter beyond ASCII is lowered to one of these.
unfoldable pub parse_dtype : Text → Load (Unit {0})
unfolding equal lower strip
parse_dtype s =
    let t = map lower (strip s) in
    check (equal t (codes "bfloat16") || equal t (codes "bf16")) unsupported_dtype

-- `cap < (12, 0)` compares the first numbers, since no second one is below 0.
unfoldable pub check_gpu : Text → Runtime → Load (Unit {0})
unfolding equal
check_gpu device rt = do
  check rt.is_available cuda_unavailable
  check (equal device (codes "cpu") || not (ltb rt.capability.0 12)) old_gpu

-- The two assignments in front of the override of the vision encoder.
unfoldable pub override_impl : Text → Config → Load Config
override_impl impl config = do
  text_impl ← from_option config.text_impl no_text_config
  done (record config { attn_impl = some impl; text_impl = some (some impl) })

-- The checks of the model that is loaded.
unfoldable pub verify_loaded : Text → Model → Load (Unit {0})
verify_loaded impl model = do
  check (is_text impl model.llm_impl) llm_impl_lost
  check (is_text fa2 model.vit_impl) vit_impl_lost
  check model.is_forced no_marker
  blocks ← from_option model.blocks no_encoder
  check (all (is_text fa2) blocks) block_impl_lost

-- The two patches, in their order.
unfoldable pub patch_model : ℕ → Model → Load Model
patch_model new_id model = do
  classes ← patch_sdpa_to_mem_efficient model.modules model.live_attn model.classes
  modules ← patch_vit_sdpa_to_mem_efficient new_id model.modules
  done (record model { modules = modules; classes = classes })

-- From the directory to the configuration that the model is loaded with.
unfoldable pub configure : Text → Runtime → Load Config
configure impl rt = do
  from_validation (validate_model_dir rt.model_dir)
  from_outcome rt.tokenizer
  from_outcome rt.processor
  config ← from_outcome rt.auto_config
  overridden ← override_impl impl config
  force_vit_flash_attn_2 rt.flash_attn rt.imported overridden

-- `__init__`
unfoldable pub load_engine : {F : Type 0} → Numerals F → Environ → Text → Runtime → Load (Engine F)
load_engine num env device rt = do
  dtype ← from_outcome (require_env env "LA_MODEL_DTYPE")
  parse_dtype dtype
  impl ← from_outcome (require_env env "LA_ATTN_IMPL")
  gen_cfg ← from_outcome (from_env num env)
  check_gpu device rt
  config ← configure impl rt
  model ← from_outcome (rt.auto_model config)
  verify_loaded impl model
  patched_model ← patch_model rt.new_id model
  done (record { attn_impl = impl; gen_cfg = gen_cfg; model = patched_model })
