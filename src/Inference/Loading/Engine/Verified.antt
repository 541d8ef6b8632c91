-- ===== src/Inference/Loading/Engine/Verified.antt =====
-- The steps of a load that is done: the configuration, the checks of the model, and the patches.
use locate_anything_setup.Prelude.{
  ℕ, ◌≡◌, sym, ap, ◌∙◌, true, Option, none, some, List, filter_if, All, Option-cases, Bool-cases,
  inl, inr, String, subst,
}
use locate_anything_setup.Prelude.Members.{All-map}
use locate_anything_setup.Text.{Text, is_empty}
use locate_anything_setup.Outcome.{ok, raise, runtime_error, env_not_set}
use locate_anything_setup.Inference.Config.{Environ, require_env}
use locate_anything_setup.Startup.{passed}
use locate_anything_setup.Startup.Environment.{equal_sound}
use locate_anything_setup.Startup.Files.{validate_model_dir}
use locate_anything_setup.Inference.Loading.{
  done, check, from_option, from_outcome, ◌>>=◌, ◌>>◌, all, no_text_config, llm_impl_lost,
  vit_impl_lost, no_marker, no_encoder, block_impl_lost, PyModule,
}
use locate_anything_setup.Inference.Loading.Chain.{
  >>=-done, check-done, from_option-done, from_validation-done, from_outcome-done, all-All,
  check-true,
}
use locate_anything_setup.Inference.Loading.Vision.{
  Config, VisionConfig, fa2, is_text, forced, force_vit_flash_attn_2,
}
use locate_anything_setup.Inference.Loading.Vision.Forced.{force_vit_flash_attn_2-forced}
use locate_anything_setup.Inference.Loading.Language.{
  Classes, is_patched_class, patch_sdpa_to_mem_efficient,
}
use locate_anything_setup.Inference.Loading.Language.Once.{patch_sdpa_to_mem_efficient-once}
use locate_anything_setup.Inference.Loading.Encoder.{is_vit_module, patch_vit_sdpa_to_mem_efficient}
use locate_anything_setup.Inference.Loading.Encoder.Installed.{
  IsPatched, patch_vit_sdpa_to_mem_efficient-once,
}
use locate_anything_setup.Inference.Loading.Engine.{
  Model, Runtime, override_impl, verify_loaded, patch_model, configure,
}

pub require_env-ok :
    (env : Environ) (name : String) (v : Text) → require_env env name ≡ ok v → env name ≡ some v
unfolding require_env
require_env-ok env name v h = elim (Option-cases (env name)) [
  | inl e ↦ (let no_way : raise (runtime_error env_not_set) ≡ ok v = rw (e, require_env) at h in cc)
  | inr (w, e) ↦ elim (Bool-cases (is_empty w)) [
    | inl b ↦
        (let no_way : raise (runtime_error env_not_set) ≡ ok v = rw (e, require_env, b) at h in cc)
    | inr b ↦ (let same : ok w ≡ ok v = rw (e, require_env, b) at h in cc)
  ]
]

is_text_sound : (want : Text) (got : Option Text) → is_text want got ≡ true → got ≡ some want
unfolding is_text
is_text_sound want none h = cc
is_text_sound want (some t) h = ap some (equal_sound t want h)

-- The configuration that the model is loaded with.
abbrev pub IsOverridden : Text → Config → Type 0
IsOverridden impl config =
    (config.attn_impl ≡ some impl)
    × (config.text_impl ≡ some (some impl))
    × ((vc : VisionConfig) × (config.vision_config ≡ some (forced vc)))

override_impl-done :
    (impl : Text) (config new_config : Config)
    → override_impl impl config ≡ done new_config
    → (new_config.attn_impl ≡ some impl) × (new_config.text_impl ≡ some (some impl))
unfolding override_impl
override_impl-done impl config new_config h =
    let new = record config { attn_impl = some impl; text_impl = some (some impl) } in
    let (t, e, h1) =
      from_option-done config.text_impl no_text_config (λ _. done new) new_config h in
    let same : new ≡ new_config = cc in
    (ap (λ c. c.attn_impl) (sym same), ap (λ c. c.text_impl) (sym same))

pub configure-done :
    (impl : Text) (rt : Runtime) (config : Config)
    → configure impl rt ≡ done config
    → (validate_model_dir rt.model_dir ≡ passed) × IsOverridden impl config
unfolding configure
configure-done impl rt config h =
    let force = force_vit_flash_attn_2 rt.flash_attn rt.imported in
    let k3 = λ (c : Config). override_impl impl c >>= force in
    let k2 = from_outcome rt.auto_config >>= k3 in
    let k1 = from_outcome rt.processor >> k2 in
    let (dir, h1) =
      from_validation-done (validate_model_dir rt.model_dir) (from_outcome rt.tokenizer >> k1)
        config h in
    let (t, _, h2) = from_outcome-done rt.tokenizer (λ _. k1) config h1 in
    let (p, _, h3) = from_outcome-done rt.processor (λ _. k2) config h2 in
    let (c, _, h4) = from_outcome-done rt.auto_config k3 config h3 in
    let (o, e, h5) = >>=-done (override_impl impl c) force config h4 in
    let (top, text) = override_impl-done impl c o e in
    let ((vc, given, whole, fit), again) =
      force_vit_flash_attn_2-forced rt.flash_attn rt.imported o config h5 in
    (
      dir,
      (
        ap (λ c. c.attn_impl) whole ∙ top,
        ap (λ c. c.text_impl) whole ∙ text,
        (vc, ap (λ c. c.vision_config) whole),
      ),
    )

-- The implementations of attention in the model.
abbrev pub IsVerified : Text → Model → Type 0
IsVerified impl model =
    (model.llm_impl ≡ some impl)
    × (model.vit_impl ≡ some fa2)
    × ((blocks : List (Option Text)) × (model.blocks ≡ some blocks)
        × All (λ b. b ≡ some fa2) blocks)

pub verify_loaded-done :
    (impl : Text) (model : Model) → verify_loaded impl model ≡ done tt → IsVerified impl model
unfolding verify_loaded
verify_loaded-done impl model h =
    let k4 = λ (bs : List (Option Text)). check (all (is_text fa2) bs) block_impl_lost in
    let k3 = from_option model.blocks no_encoder >>= k4 in
    let k2 = check model.is_forced no_marker >> k3 in
    let k1 = check (is_text fa2 model.vit_impl) vit_impl_lost >> k2 in
    let (a, h1) = check-done (is_text impl model.llm_impl) llm_impl_lost k1 tt h in
    let (b, h2) = check-done (is_text fa2 model.vit_impl) vit_impl_lost k2 tt h1 in
    let (c, h3) = check-done model.is_forced no_marker k3 tt h2 in
    let (bs, e, h4) = from_option-done model.blocks no_encoder k4 tt h3 in
    (
      is_text_sound impl model.llm_impl a,
      is_text_sound fa2 model.vit_impl b,
      (
        bs,
        e,
        All-map bs (is_text_sound fa2)
            (all-All (is_text fa2) bs (check-true (all (is_text fa2) bs) block_impl_lost h4)),
      ),
    )

-- The attention of the model is patched, on both sides.
abbrev pub IsPatchedModel : Model → Type 0
IsPatchedModel model =
    (is_patched_class model.classes model.live_attn ≡ true)
    × All IsPatched (filter_if is_vit_module model.modules)

pub patch_model-done :
    (new_id : ℕ) (impl : Text) (model new_model : Model)
    → IsVerified impl model
    → patch_model new_id model ≡ done new_model
    → IsVerified impl new_model × IsPatchedModel new_model
unfolding patch_model
patch_model-done new_id impl model new_model verified h =
    let set = λ (cs : Classes) (ms : List PyModule). record model { modules = ms; classes = cs } in
    let k2 = λ (cs : Classes).
      patch_vit_sdpa_to_mem_efficient new_id model.modules >>= λ ms. done (set cs ms) in
    let (cs, a, h1) =
      >>=-done (patch_sdpa_to_mem_efficient model.modules model.live_attn model.classes) k2
        new_model h in
    let (ms, b, h2) =
      >>=-done (patch_vit_sdpa_to_mem_efficient new_id model.modules) (λ ms. done (set cs ms))
        new_model h1 in
    let same : set cs ms ≡ new_model = cc in
    let (_, _, live, _) =
      patch_sdpa_to_mem_efficient-once model.modules model.live_attn model.classes cs a in
    let (fns, _, _, _) = patch_vit_sdpa_to_mem_efficient-once new_id model.modules ms b in
    subst (λ m. IsVerified impl m × IsPatchedModel m) same (verified, (live, fns))
