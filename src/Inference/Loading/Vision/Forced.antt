-- ===== src/Inference/Loading/Vision/Forced.antt =====
-- The configuration that `_force_vit_flash_attn_2` leaves.
use locate_anything_setup.Prelude.{
  ◌≡◌, refl, sym, ap, ◌∙◌, true, Option, none, some, List, ◌⊎◌, inl, inr, Bool-cases, Option-cases,
  subst, ◌↔◌,
}
use locate_anything_setup.Text.{codes, equal}
use locate_anything_setup.Startup.Environment.{equal_sound}
use locate_anything_setup.Inference.Loading.{
  PyModule, done, refused, vision_impl_set, vision_drift, no_vision_config, check, ◌>>=◌, ◌>>◌,
}
use locate_anything_setup.Inference.Loading.Chain.{check-done, from_option-done, >>=-done}
use locate_anything_setup.Inference.Loading.Vision.{
  FlashAttn, VisionConfig, Config, fa2, forced, force_impl, is_moonvit, force_vit_flash_attn_2,
  force_config, check_flash_attn, check_vit,
}

force_impl-done :
    (vc new_vc : VisionConfig)
    → force_impl vc ≡ done new_vc
    → (new_vc ≡ forced vc)
      × ((vc.attn_impl ≡ none) ⊎ (vc.attn_impl ≡ some fa2) ⊎ (vc.attn_impl ≡ some (codes "sdpa")))
unfolding force_impl
force_impl-done vc new_vc h = elim (Option-cases vc.attn_impl) [
  | inl e ↦ let h1 : done (forced vc) ≡ done new_vc = rw (e, force_impl) at h in (cc, inl e)
  | inr (impl, e) ↦ elim (Bool-cases (equal impl fa2)) [
    | inl b ↦
        let same : vc.attn_impl ≡ some fa2 = e ∙ ap some (equal_sound impl fa2 b) in
        let h1 : done (record vc { is_forced = true }) ≡ done new_vc = rw (e, force_impl, b) at h in
        let left : record vc { is_forced = true } ≡ new_vc = cc in
        (sym left ∙ ap (λ i. record vc { attn_impl = i; is_forced = true }) same, inr (inl same))
    | inr b ↦ elim (Bool-cases (equal impl (codes "sdpa"))) [
      | inl c ↦
          let h1 : done (forced vc) ≡ done new_vc = rw (e, force_impl, b, c) at h in
          (cc, inr (inr (e ∙ ap some (equal_sound impl (codes "sdpa") c))))
      | inr c ↦
          (let no_way : refused vision_impl_set ≡ done new_vc = rw (e, force_impl, b, c) at h in cc)
    ]
  ]
]

force_impl-forced : (vc : VisionConfig) → force_impl (forced vc) ≡ done (forced vc)
unfolding force_impl equal
force_impl-forced vc = refl

abbrev pub IsForcible : VisionConfig → Type 0
IsForcible vc =
    (is_moonvit vc ≡ true)
    × ((vc.attn_impl ≡ none) ⊎ (vc.attn_impl ≡ some fa2) ⊎ (vc.attn_impl ≡ some (codes "sdpa")))

force_config-forced :
    (config : Config) (vc : VisionConfig)
    → is_moonvit vc ≡ true
    → force_config (record config { vision_config = some (forced vc) })
      ≡ done (record config { vision_config = some (forced vc) })
unfolding force_config is_moonvit
force_config-forced config vc h =
    let h1 : is_moonvit (forced vc) ≡ true = h in rw h1 (rw (force_impl-forced vc) refl)

force_config-done :
    (config new_config : Config)
    → force_config config ≡ done new_config
    → (vc : VisionConfig) × (config.vision_config ≡ some vc)
      × (new_config ≡ record config { vision_config = some (forced vc) })
      × IsForcible vc
unfolding force_config
force_config-done config new_config h =
    let set = λ (v : VisionConfig). record config { vision_config = some v } in
    let (vc, e, h1) =
      from_option-done config.vision_config no_vision_config
        (λ vc. check (is_moonvit vc) vision_drift >> (force_impl vc >>= λ v. done (set v)))
        new_config h in
    let (i, h2) =
      check-done (is_moonvit vc) vision_drift (force_impl vc >>= λ v. done (set v)) new_config h1 in
    let (new_vc, j, h3) = >>=-done (force_impl vc) (λ v. done (set v)) new_config h2 in
    let (k, before) = force_impl-done vc new_vc j in
    let left : set new_vc ≡ new_config = cc in (vc, e, sym left ∙ ap set k, (i, before))

force_impl-eq-done :
    (vc : VisionConfig)
    → (vc.attn_impl ≡ none) ⊎ (vc.attn_impl ≡ some fa2) ⊎ (vc.attn_impl ≡ some (codes "sdpa"))
    → force_impl vc ≡ done (forced vc)
unfolding force_impl equal
force_impl-eq-done vc (inl e) = rw e refl
force_impl-eq-done vc (inr (inl e)) = rw e refl
force_impl-eq-done vc (inr (inr e)) = rw e refl

force_config-eq-done :
    (config : Config) (vc : VisionConfig)
    → config.vision_config ≡ some vc
    → IsForcible vc
    → force_config config ≡ done (record config { vision_config = some (forced vc) })
unfolding force_config
force_config-eq-done config vc e (shape, before) =
    rw (e, shape) (rw (force_impl-eq-done vc before) refl)

-- An override that is done, and one more.
pub force_vit_flash_attn_2-forced :
    (flash_attn : FlashAttn) (imported : Option (List PyModule)) (config new_config : Config)
    → force_vit_flash_attn_2 flash_attn imported config ≡ done new_config
    → ((vc : VisionConfig) × (config.vision_config ≡ some vc)
        × (new_config ≡ record config { vision_config = some (forced vc) })
        × IsForcible vc)
      × (force_vit_flash_attn_2 flash_attn imported new_config ≡ done new_config)
unfolding force_vit_flash_attn_2
force_vit_flash_attn_2-forced flash_attn imported config new_config h =
    let (u, a, h1) =
      >>=-done (check_flash_attn flash_attn) (λ _. check_vit imported >> force_config config)
        new_config h in
    let (w, b, h2) = >>=-done (check_vit imported) (λ _. force_config config) new_config h1 in
    let (vc, e, whole, fit) = force_config-done config new_config h2 in
    let again : force_config new_config ≡ done new_config =
      subst (λ c. force_config c ≡ done c) (sym whole) (force_config-forced config vc fit.0) in
    ((vc, e, whole, fit), rw a (rw b again))

-- The override of the vision attention is done with a configuration exactly if the flash_attn
-- package and the loaded modules pass their checks, the given configuration has a vision part of
-- the expected shape whose attention is unset, `flash_attention_2` or `sdpa`, and that
-- configuration is the given one with that part on `flash_attention_2` and marked.
pub force_vit_flash_attn_2-eq-done_iff :
    (flash_attn : FlashAttn) (imported : Option (List PyModule)) (config new_config : Config)
    → (force_vit_flash_attn_2 flash_attn imported config ≡ done new_config) ↔ (
        (check_flash_attn flash_attn ≡ done tt)
        × (check_vit imported ≡ done tt)
        × ((vc : VisionConfig) × (config.vision_config ≡ some vc)
            × IsForcible vc
            × (new_config ≡ record config { vision_config = some (forced vc) })))
unfolding force_vit_flash_attn_2
force_vit_flash_attn_2-eq-done_iff flash_attn imported config new_config = (
  (λ h.
      let (u, a, h1) =
        >>=-done (check_flash_attn flash_attn) (λ _. check_vit imported >> force_config config)
          new_config h in
      let (w, b, h2) = >>=-done (check_vit imported) (λ _. force_config config) new_config h1 in
      let (vc, e, whole, fit) = force_config-done config new_config h2 in
      (a, b, (vc, e, fit, whole))),
  (λ (a, b, (vc, e, fit, whole)).
      rw (a, b) (force_config-eq-done config vc e fit ∙ ap done (sym whole))),
)
