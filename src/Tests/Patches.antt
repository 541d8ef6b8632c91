-- ===== src/Tests/Patches.antt =====
-- The override and the patches of the attention, on the modules and classes of one interpreter.
use mathlib.Core.List.{Memᴰ}
use locate_anything_setup.Prelude.{
  arith, ◌↔◌, inl, ℕ, ◌≡◌, refl, true, false, none, some, List, [], ◌∷◌, ◌==◌, if◌then◌else◌, All,
  filter_if,
}
use locate_anything_setup.Inference.Loading.Encoder.Mask.{bool_mask}
use locate_anything_setup.Inference.Loading.Encoder.Segments.{segment, bool_mask-segment_iff}
use locate_anything_setup.Inference.Loading.Vision.{
  check_flash_attn, check_vit, Config, VisionConfig, FlashAttn, fa2, forced, force_vit_flash_attn_2,
}
use locate_anything_setup.Inference.Loading.Vision.Forced.{
  force_vit_flash_attn_2-eq-done_iff, IsForcible,
}
use locate_anything_setup.Inference.Loading.Encoder.Total.{patch_vit_sdpa_to_mem_efficient-total}
use locate_anything_setup.Text.{codes}
use locate_anything_setup.Inference.Loading.{
  old_gpu, PyModule, Function, Forward, original, patched, Class, Load, done, refused,
  attention_params,
}
use locate_anything_setup.Inference.Loading.Language.{
  Classes, check_class, qwen2_classes, is_patched_class, patch_sdpa_to_mem_efficient,
  forward_params, wrap, patch_all,
}
use locate_anything_setup.Inference.Loading.Encoder.{
  is_vit_module, is_installed, patch_vit_sdpa_to_mem_efficient, install_if,
}
use locate_anything_setup.Inference.Loading.Encoder.Replaced.{Untouched}
use locate_anything_setup.Inference.Loading.Encoder.Installed.{Pairwise, IsPatched}

abbrev fn : ℕ → Function
fn n = record { identity = n; params = attention_params; is_patched = false }

abbrev pub vit_module : PyModule
vit_module = record {
  name = codes "transformers_modules.model.modeling_vit";
  qwen2_class = none;
  sdpa_attention = some (fn 2);
  multihead_attention = some (fn 1);
  dispatch =
      some ((codes "flash_attention_2", fn 1) ∷ (codes "sdpa", fn 2) ∷ (codes "eager", fn 3) ∷ []);
}

abbrev qwen2_module : PyModule
qwen2_module = record {
  name = codes "transformers_modules.model.modeling_qwen2";
  qwen2_class = some 1;
  sdpa_attention = none;
  multihead_attention = none;
  dispatch = none;
}

abbrev pub loaded_modules : List PyModule
loaded_modules = vit_module ∷ qwen2_module ∷ []

-- Class 1 is Qwen2SdpaAttention, with Qwen2Attention behind it.
abbrev pub loaded_classes : Classes
loaded_classes c =
    if c == 1
    then record {
      name = codes "Qwen2SdpaAttention";
      bases = 2 ∷ [];
      forward = some (original forward_params);
      is_tagged = false;
    }
    else record {
      name = codes "Qwen2Attention";
      bases = [];
      forward = some (original forward_params);
      is_tagged = false;
    }

abbrev pub vision : VisionConfig
vision = record {
  model_type = some (codes "moonvit");
  num_attention_heads = some 16;
  hidden_size = some 1152;
  attn_impl = some (codes "sdpa");
  is_forced = false;
}

abbrev pub given_config : Config
given_config = record {
  attn_impl = some (codes "magi");
  text_impl = some (some (codes "magi"));
  vision_config = some vision;
}

abbrev forced_config : Config
forced_config = record given_config { vision_config = some (forced vision) }

abbrev pub flash_attn : FlashAttn
flash_attn = record { is_importable = true; version = some (codes "2.8.3"); has_varlen = true }

given_config_forced :
    force_vit_flash_attn_2 flash_attn (some loaded_modules) given_config ≡ done forced_config
unfolding force_vit_flash_attn_2 locate_anything_setup.Inference.Loading.Vision.check_flash_attn
    locate_anything_setup.Inference.Loading.Vision.is_text
    locate_anything_setup.Inference.Loading.Vision.check_vit
    locate_anything_setup.Inference.Loading.Vision.vit_dispatchers
    locate_anything_setup.Inference.Loading.is_named
    locate_anything_setup.Inference.Loading.Vision.check_vit_module
    locate_anything_setup.Inference.Loading.Vision.check_dispatch
    locate_anything_setup.Inference.Loading.has_dispatch_keys
    locate_anything_setup.Inference.Loading.Vision.is_same
    locate_anything_setup.Inference.Loading.lookup_fn
    locate_anything_setup.Inference.Loading.same_params
    locate_anything_setup.Inference.Loading.Vision.force_config
    locate_anything_setup.Inference.Loading.Vision.is_moonvit
    locate_anything_setup.Inference.Loading.Vision.is_number
    locate_anything_setup.Inference.Loading.Vision.force_impl
given_config_forced = refl

abbrev pub patched_classes : Classes
patched_classes = patch_all loaded_classes (1 ∷ [])

pub loaded_classes_patched :
    patch_sdpa_to_mem_efficient loaded_modules 1 loaded_classes ≡ done patched_classes
unfolding patch_sdpa_to_mem_efficient qwen2_classes locate_anything_setup.Inference.Loading.is_named
    check_class is_patched_class locate_anything_setup.Inference.Loading.has_text
    locate_anything_setup.Inference.Loading.Language.first_forward
    locate_anything_setup.Inference.Loading.same_params patch_all
    locate_anything_setup.Inference.Loading.Language.patch_class
loaded_classes_patched = refl

patched_forward : (patched_classes 1).forward ≡ some (patched (original forward_params))
unfolding patch_all locate_anything_setup.Inference.Loading.Language.patch_class is_patched_class
    locate_anything_setup.Inference.Loading.Language.first_forward
patched_forward = refl

abbrev pub patched_modules : List PyModule
patched_modules = install_if 9 vit_module ∷ qwen2_module ∷ []

pub loaded_modules_patched : patch_vit_sdpa_to_mem_efficient 9 loaded_modules ≡ done patched_modules
unfolding patch_vit_sdpa_to_mem_efficient is_vit_module
    locate_anything_setup.Inference.Loading.is_named
    locate_anything_setup.Inference.Loading.Encoder.check_sdpa
    locate_anything_setup.Inference.Loading.Encoder.check_unpatched
    locate_anything_setup.Inference.Loading.same_params
    locate_anything_setup.Inference.Loading.has_dispatch_keys
    locate_anything_setup.Inference.Loading.Encoder.install
    locate_anything_setup.Inference.Loading.Encoder.is_patched_fn is_installed
    locate_anything_setup.Inference.Loading.lookup_fn
    locate_anything_setup.Inference.Loading.Encoder.set_fn
loaded_modules_patched = refl

force_vit_flash_attn_2-eq-done_iff_example :
    (force_vit_flash_attn_2 flash_attn (some loaded_modules) given_config ≡ done forced_config) ↔ (
      (check_flash_attn flash_attn ≡ done tt)
      × (check_vit (some loaded_modules) ≡ done tt)
      × ((vc : VisionConfig) × (given_config.vision_config ≡ some vc)
          × IsForcible vc
          × (forced_config ≡ record given_config { vision_config = some (forced vc) })))
force_vit_flash_attn_2-eq-done_iff_example =
    force_vit_flash_attn_2-eq-done_iff flash_attn (some loaded_modules) given_config forced_config

patch_vit_sdpa_to_mem_efficient-total_example :
    (new_modules : List PyModule) × (patch_vit_sdpa_to_mem_efficient 9 loaded_modules
      ≡ done new_modules)
    × All IsPatched (filter_if is_vit_module new_modules)
    × All (λ m. is_installed m ≡ true) (filter_if is_vit_module new_modules)
    × Pairwise Untouched loaded_modules new_modules
    × (patch_vit_sdpa_to_mem_efficient 9 new_modules ≡ done new_modules)
unfolding is_vit_module locate_anything_setup.Inference.Loading.is_named
    locate_anything_setup.Inference.Loading.Encoder.check_sdpa
    locate_anything_setup.Inference.Loading.Encoder.check_unpatched
    locate_anything_setup.Inference.Loading.same_params
    locate_anything_setup.Inference.Loading.has_dispatch_keys
    locate_anything_setup.Inference.Loading.Encoder.is_patched_fn
patch_vit_sdpa_to_mem_efficient-total_example =
    patch_vit_sdpa_to_mem_efficient-total 9 loaded_modules vit_module (Memᴰ.head refl) (refl, tt)
      (inl refl, tt)

-- Two images, of four and of three patches.
bool_mask-segment_iff_example :
    (bool_mask (0 ∷ 4 ∷ 7 ∷ []) 2 5 ≡ true)
    ↔ (segment (0 ∷ 4 ∷ 7 ∷ []) 2 ≡ segment (0 ∷ 4 ∷ 7 ∷ []) 5)
bool_mask-segment_iff_example =
    bool_mask-segment_iff 0 (4 ∷ 7 ∷ []) 2 5 (omega arith, (omega arith, tt))
      (omega arith, omega arith) (omega arith, omega arith)
