-- ===== src/Inference/Loading/Language.antt =====
-- worker/inference.py, `_patch_sdpa_to_mem_efficient`: the classes of the language model whose
-- `forward` is wrapped. A class is named by a number.
pub mod Once
pub mod Total
use mathlib.Core.Option
use locate_anything_setup.Inference.Loading.{
  Refusal, unsupported_dtype, cuda_unavailable, old_gpu, no_text_config, no_flash_attn,
  flash_attn_version, no_varlen, no_vit_import, no_vit_module, dispatch_drift, no_multihead,
  slot_remapped, signature_drift, no_vision_config, vision_drift, vision_impl_set, llm_impl_lost,
  vit_impl_lost, no_marker, no_encoder, block_impl_lost, no_qwen2_module, no_forward, base_drift,
  attention_not_patched, no_dispatch, dispatch_not_patched, Load, done, refused, exited, raised,
  ◌>>=◌, ◌>>◌, check, from_option, from_outcome, from_validation, Function, Forward, original,
  patched, Class, Dispatch, PyModule, all, for_each, has_text, same_params, lookup_fn,
  dispatch_keys, attention_params, has_dispatch_keys, is_named, is_some, map,
}
use locate_anything_setup.Prelude.{
  filter_if, ℕ, Bool, true, false, not, ◌&&◌, Option, none, some, List, [], ◌∷◌, ◌==◌,
  if◌then◌else◌, any,
}
use locate_anything_setup.Text.{is_empty, Text, codes}

abbrev pub Classes : Type 0
Classes = ℕ → Class

-- The classes `Qwen2SdpaAttention` of the modules `.modeling_qwen2`, in the order of the modules.
unfoldable pub qwen2_classes : List PyModule → List ℕ
qwen2_classes [] = []
qwen2_classes (m ∷ ms) =
    let rest = qwen2_classes ms in
    elim m.qwen2_class [
      | none ↦ rest
      | some c ↦ if is_named (codes ".modeling_qwen2") m then c ∷ rest else rest
    ]

-- `cls.__mro__`
abbrev pub mro : Classes → ℕ → List ℕ
mro classes c = c ∷ (classes c).bases

-- `getattr(cls, "_la_sdpa_patched", False)`, which finds the tag of a base class as well.
unfoldable pub is_patched_class : Classes → ℕ → Bool
is_patched_class classes c = any (λ d. (classes d).is_tagged) (mro classes c)

-- `cls.forward`
unfoldable pub first_forward : Classes → List ℕ → Option Forward
first_forward classes [] = none
first_forward classes (d ∷ ds) =
    let rest = first_forward classes ds in
    elim (classes d).forward [ none ↦ rest | some f ↦ some f ]

abbrev pub forward_of : Classes → ℕ → Option Forward
forward_of classes c = first_forward classes (mro classes c)

-- EXPECTED_QWEN2_FORWARD_PARAMS
abbrev pub forward_params : List Text
forward_params =
    codes "self"
    ∷ codes "hidden_states"
    ∷ codes "attention_mask"
    ∷ codes "position_ids"
    ∷ codes "past_key_value"
    ∷ codes "output_attentions"
    ∷ codes "use_cache"
    ∷ []

-- `tuple(inspect.signature(f).parameters)`
abbrev pub params_of : Forward → List Text
params_of (original params) = params
params_of (patched f) = codes "self" ∷ codes "args" ∷ codes "kwargs" ∷ []

-- The body of the first loop; `none` of a forward is an AttributeError.
unfoldable pub check_class : Classes → ℕ → Load (Unit {0})
check_class classes c = if is_patched_class classes c then done tt else (do
  check (has_text (map (λ d. (classes d).name) (mro classes c)) (codes "Qwen2Attention")) base_drift
  f ← from_option (forward_of classes c) no_forward
  check (same_params (params_of f) forward_params) signature_drift)

-- `cls.forward = _make_patched(cls.forward)` and the tag.
abbrev pub wrap : Classes → ℕ → Class
wrap classes c = record (classes c) {
  forward = Option.map patched (forward_of classes c);
  is_tagged = true;
}

-- The body of the second loop.
unfoldable pub patch_class : Classes → ℕ → Classes
patch_class classes c =
    if is_patched_class classes c
    then classes
    else (λ d. if d == c then wrap classes c else classes d)

unfoldable pub patch_all : Classes → List ℕ → Classes
patch_all classes [] = classes
patch_all classes (c ∷ cs) = patch_all (patch_class classes c) cs

-- `live` is the class of the attention of the first layer of the model.
unfoldable pub patch_sdpa_to_mem_efficient : List PyModule → ℕ → Classes → Load Classes
patch_sdpa_to_mem_efficient modules live classes = do
  let candidates = qwen2_classes modules
  check (not (is_empty candidates)) no_qwen2_module
  for_each (check_class classes) candidates
  let new_classes = patch_all classes candidates
  check (is_patched_class new_classes live) attention_not_patched
  done new_classes
