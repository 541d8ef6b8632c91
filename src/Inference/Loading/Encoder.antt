-- ===== src/Inference/Loading/Encoder.antt =====
-- worker/inference.py, `_patch_vit_sdpa_to_mem_efficient`: the function `sdpa_attention` of the vision
-- encoder that is replaced.
pub mod Replaced
pub mod Installed
pub mod Total
pub mod Mask
pub mod Segments
use mathlib.Core.Option
use locate_anything_setup.Inference.Loading.{
  Refusal, unsupported_dtype, cuda_unavailable, old_gpu, no_text_config, no_flash_attn,
  flash_attn_version, no_varlen, no_vit_import, no_vit_module, dispatch_drift, no_multihead,
  slot_remapped, signature_drift, no_vision_config, vision_drift, vision_impl_set, llm_impl_lost,
  vit_impl_lost, no_marker, no_encoder, block_impl_lost, no_qwen2_module, no_forward, base_drift,
  attention_not_patched, no_dispatch, dispatch_not_patched, Load, done, refused, exited, raised,
  ◌>>=◌, ◌>>◌, check, from_option, from_outcome, from_validation, Function, Forward, original,
  patched, Class, Dispatch, PyModule, all, for_each, has_text, same_params, lookup_fn,
  dispatch_keys, attention_params, has_dispatch_keys, is_named, is_some,
}
use locate_anything_setup.Prelude.{
  filter_if, ℕ, Bool, true, false, not, ◌&&◌, Option, none, some, List, [], ◌∷◌, ◌==◌,
  if◌then◌else◌, map,
}
use locate_anything_setup.Text.{is_empty, Text, codes, equal}

abbrev pub sdpa : Text
sdpa = codes "sdpa"

unfoldable pub is_vit_module : PyModule → Bool
is_vit_module m = is_named (codes ".modeling_vit") m && is_some m.sdpa_attention

unfoldable pub is_patched_fn : Option Function → Bool
is_patched_fn f = elim f [ none ↦ false | some g ↦ g.is_patched ]

-- The body of the first loop, for a function without the tag.
unfoldable pub check_unpatched : PyModule → Function → Load (Unit {0})
check_unpatched m f = do
  check (same_params f.params attention_params) signature_drift
  d ← from_option m.dispatch no_dispatch
  check (has_dispatch_keys d) dispatch_drift

unfoldable pub check_sdpa : PyModule → Load (Unit {0})
check_sdpa m = elim m.sdpa_attention [
  | none ↦ done tt
  | some f ↦ if f.is_patched then done tt else check_unpatched m f
]

-- `d[key] = f`
unfoldable pub set_fn : Text → Function → Dispatch → Dispatch
unfolding equal
set_fn key f [] = (key, f) ∷ []
set_fn key f ((k, g) ∷ rest) =
    let new_rest = set_fn key f rest in if equal k key then (k, f) ∷ rest else (k, g) ∷ new_rest

-- `patched_sdpa_attention`, the function that is made by this call.
abbrev pub replacement : ℕ → Function
replacement new_id = record { identity = new_id; params = attention_params; is_patched = true }

abbrev pub replaced : ℕ → PyModule → PyModule
replaced new_id m = record m {
  sdpa_attention = some (replacement new_id);
  dispatch = Option.map (set_fn sdpa (replacement new_id)) m.dispatch;
}

-- The body of the second loop.
unfoldable pub install : ℕ → PyModule → PyModule
install new_id m = if is_patched_fn m.sdpa_attention then m else replaced new_id m

abbrev pub install_if : ℕ → PyModule → PyModule
install_if new_id m = if is_vit_module m then install new_id m else m

-- The body of the third loop.
unfoldable pub is_installed : PyModule → Bool
is_installed m = elim m.dispatch [ none ↦ true | some d ↦ is_patched_fn (lookup_fn sdpa d) ]

unfoldable pub patch_vit_sdpa_to_mem_efficient : ℕ → List PyModule → Load (List PyModule)
patch_vit_sdpa_to_mem_efficient new_id modules = do
  let candidates = filter_if is_vit_module modules
  check (not (is_empty candidates)) no_vit_module
  for_each check_sdpa candidates
  let new_modules = map (install_if new_id) modules
  check (all is_installed (filter_if is_vit_module new_modules)) dispatch_not_patched
  done new_modules
