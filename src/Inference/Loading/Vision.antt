-- ===== src/Inference/Loading/Vision.antt =====
-- worker/inference.py, `_force_vit_flash_attn_2`: the checks in front of the change of the
-- configuration, and the change.
pub mod Forced
use locate_anything_setup.Inference.Loading.{
  Refusal, unsupported_dtype, cuda_unavailable, old_gpu, no_text_config, no_flash_attn,
  flash_attn_version, no_varlen, no_vit_import, no_vit_module, dispatch_drift, no_multihead,
  slot_remapped, signature_drift, no_vision_config, vision_drift, vision_impl_set, llm_impl_lost,
  vit_impl_lost, no_marker, no_encoder, block_impl_lost, no_qwen2_module, no_forward, base_drift,
  attention_not_patched, no_dispatch, dispatch_not_patched, Load, done, refused, exited, raised,
  ◌>>=◌, ◌>>◌, check, from_option, from_outcome, from_validation, Function, Forward, original,
  patched, Class, Dispatch, PyModule, all, for_each, has_text, same_params, lookup_fn,
  dispatch_keys, attention_params, has_dispatch_keys, is_named, is_some,
}
use locate_anything_setup.Prelude.{
  filter_if, ℕ, Bool, true, false, not, ◌&&◌, ◌||◌, Option, none, some, List, [], ◌∷◌, ◌==◌,
  if◌then◌else◌,
}
use locate_anything_setup.Text.{is_empty, Text, codes, equal}

-- _EXPECTED_FLASH_ATTN_VERSION
abbrev pub flash_attn_version_pin : Text
flash_attn_version_pin = codes "2.8.3"

abbrev pub fa2 : Text
fa2 = codes "flash_attention_2"

-- The package: whether it can be imported, its `__version__`, and whether it has the entry point.
pub record FlashAttn : Type 0 where
  pub is_importable : Bool
  pub version : Option Text
  pub has_varlen : Bool

-- `vision_config`; what is absent, or of another type, is `none`.
pub record VisionConfig : Type 0 where
  pub model_type : Option Text
  pub num_attention_heads : Option ℕ
  pub hidden_size : Option ℕ
  pub attn_impl : Option Text
  pub is_forced : Bool

-- The configuration; the attribute of `text_config` is all that matters of it.
pub record Config : Type 0 where
  pub attn_impl : Option Text
  pub text_impl : Option (Option Text)
  pub vision_config : Option VisionConfig

unfoldable pub is_text : Text → Option Text → Bool
unfolding equal
is_text want got = elim got [ none ↦ false | some t ↦ equal t want ]

unfoldable pub is_number : ℕ → Option ℕ → Bool
is_number want got = elim got [ none ↦ false | some n ↦ n == want ]

-- The candidates of pre-check (c).
unfoldable pub vit_dispatchers : List PyModule → List PyModule
vit_dispatchers = filter_if (λ m. is_named (codes ".modeling_vit") m && is_some m.dispatch)

-- `is` of the slot of the dict and of the function of the module.
unfoldable pub is_same : Function → Option Function → Bool
is_same f slot = elim slot [ none ↦ false | some g ↦ g.identity == f.identity ]

-- The body of the loop over the candidates: pre-checks (c) and (d).
unfoldable pub check_dispatch : PyModule → Dispatch → Load (Unit {0})
check_dispatch mod_ d = do
  check (has_dispatch_keys d) dispatch_drift
  expected_fn ← from_option mod_.multihead_attention no_multihead
  check (is_same expected_fn (lookup_fn fa2 d)) slot_remapped
  check (same_params expected_fn.params attention_params) signature_drift

unfoldable pub check_vit_module : PyModule → Load (Unit {0})
check_vit_module mod_ = elim mod_.dispatch [ none ↦ done tt | some d ↦ check_dispatch mod_ d ]

-- Pre-check (e).
unfoldable pub is_moonvit : VisionConfig → Bool
is_moonvit vc =
    is_text (codes "moonvit") vc.model_type
    && is_number 16 vc.num_attention_heads
    && is_number 1152 vc.hidden_size

abbrev pub forced : VisionConfig → VisionConfig
forced vc = record vc { attn_impl = some fa2; is_forced = true }

-- Pre-check (f), and the change.
unfoldable pub force_impl : VisionConfig → Load VisionConfig
unfolding equal
force_impl vc = elim vc.attn_impl [
  | none ↦ done (forced vc)
  | some impl ↦
      if equal impl fa2
      then done (record vc { is_forced = true })
      else if equal impl (codes "sdpa")
      then done (forced vc)
      else refused vision_impl_set
]

-- Pre-checks (a) and (b).
unfoldable pub check_flash_attn : FlashAttn → Load (Unit {0})
check_flash_attn flash_attn = do
  check flash_attn.is_importable no_flash_attn
  check (is_text flash_attn_version_pin flash_attn.version) flash_attn_version
  check flash_attn.has_varlen no_varlen

-- Pre-checks (c) and (d): the loaded modules behind the import of modeling_vit, or none if it raised.
unfoldable pub check_vit : Option (List PyModule) → Load (Unit {0})
check_vit imported = do
  modules ← from_option imported no_vit_import
  check (not (is_empty (vit_dispatchers modules))) no_vit_module
  for_each check_vit_module (vit_dispatchers modules)

-- Pre-checks (e) and (f), and the change.
unfoldable pub force_config : Config → Load Config
force_config config = do
  vc ← from_option config.vision_config no_vision_config
  check (is_moonvit vc) vision_drift
  new_vc ← force_impl vc
  done (record config { vision_config = some new_vc })

unfoldable pub force_vit_flash_attn_2 : FlashAttn → Option (List PyModule) → Config → Load Config
force_vit_flash_attn_2 flash_attn imported config = do
  check_flash_attn flash_attn
  check_vit imported
  force_config config
