-- ===== src/Inference/Loading/Encoder/Total.antt =====
-- When `_patch_vit_sdpa_to_mem_efficient` is done.
use locate_anything_setup.Prelude.{
  ℕ, ◌≡◌, refl, sym, ap, ◌∙◌, true, false, some, List, [], ◌∷◌, map, filter_if, filter_if-keeps,
  filter_if-drops, All, Bool-cases, Option-cases, ◌⊎◌, inl, inr,
}
use mathlib.Core.List.{Memᴰ}
use locate_anything_setup.Text.{equal}
use locate_anything_setup.Inference.Loading.{PyModule, Function, Dispatch, done, lookup_fn}
use locate_anything_setup.Inference.Loading.Chain.{for_each-All, All-all, not_empty}
use locate_anything_setup.Inference.Loading.Encoder.{
  sdpa, is_vit_module, is_patched_fn, check_sdpa, set_fn, replacement, replaced, install,
  install_if, is_installed, patch_vit_sdpa_to_mem_efficient,
}
use locate_anything_setup.Inference.Loading.Encoder.Replaced.{
  Untouched, install-cases, install_if-is_vit_module,
}
use locate_anything_setup.Inference.Loading.Encoder.Installed.{
  Pairwise, IsPatched, patch_vit_sdpa_to_mem_efficient-once,
}

lookup_fn-set_fn-same : (f : Function) (d : Dispatch) → lookup_fn sdpa (set_fn sdpa f d) ≡ some f
unfolding lookup_fn set_fn equal
lookup_fn-set_fn-same f [] = refl
lookup_fn-set_fn-same f ((k, g) ∷ rest) = elim (Bool-cases (equal k sdpa)) [
  | inl e ↦ rw e (rw (lookup_fn, e) refl)
  | inr e ↦ rw e (rw (lookup_fn, e) (lookup_fn-set_fn-same f rest))
]

is_installed-replaced : (new_id : ℕ) (m : PyModule) → is_installed (replaced new_id m) ≡ true
unfolding is_installed is_patched_fn
is_installed-replaced new_id m = elim (Option-cases m.dispatch) [
  | inl e ↦ rw e refl
  | inr (d, e) ↦ rw e (ap is_patched_fn (lookup_fn-set_fn-same (replacement new_id) d))
]

-- A candidate that is to be replaced, or is in its dict already.
abbrev pub IsInstallable : PyModule → Type 0
IsInstallable m = (is_patched_fn m.sdpa_attention ≡ false) ⊎ (is_installed m ≡ true)

install-IsInstalled :
    (new_id : ℕ) (m : PyModule) → IsInstallable m → is_installed (install new_id m) ≡ true
install-IsInstalled new_id m h = elim (install-cases new_id m) [
  | inr (e, same) ↦ ap is_installed same ∙ is_installed-replaced new_id m
  | inl (e, same) ↦ elim h [
    | inl other ↦ (let no_way : true ≡ false = sym e ∙ other in cc)
    | inr there ↦ ap is_installed same ∙ there
  ]
]

map-IsInstalled :
    (new_id : ℕ) (ms : List PyModule)
    → All IsInstallable (filter_if is_vit_module ms)
    → All (λ m. is_installed m ≡ true) (filter_if is_vit_module (map (install_if new_id) ms))
map-IsInstalled new_id [] h = tt
map-IsInstalled new_id (m ∷ ms) h =
    let n = install_if new_id m in
    let rest = map (install_if new_id) ms in
    elim (Bool-cases (is_vit_module m)) [
      | inl v ↦
          let (here, there) : All IsInstallable (m ∷ filter_if is_vit_module ms) =
            rw (filter_if-keeps is_vit_module m ms v) at h in
          let now : is_installed n ≡ true = rw v (install-IsInstalled new_id m here) in
          rw (filter_if-keeps is_vit_module n rest (install_if-is_vit_module new_id m ∙ v))
            (now, map-IsInstalled new_id ms there)
      | inr v ↦
          rw (filter_if-drops is_vit_module n rest (install_if-is_vit_module new_id m ∙ v))
            (map-IsInstalled new_id ms (rw (filter_if-drops is_vit_module m ms v) at h))
    ]

-- Where there is a candidate module, every candidate passes the check in front of the patch, and
-- one whose function is patched already has it in the slot `sdpa` of its dict, if it has a dict,
-- the patch of the vision encoder is done; every candidate then has a patched function, and such a
-- one in that slot, if it has a dict; in every module `multihead_attention` and the slots
-- `flash_attention_2` and `eager` are those of before; and the patch done once more changes
-- nothing.
pub patch_vit_sdpa_to_mem_efficient-total :
    (new_id : ℕ) (modules : List PyModule) (some_module : PyModule)
    → Memᴰ some_module (filter_if is_vit_module modules)
    → All (λ m. check_sdpa m ≡ done tt) (filter_if is_vit_module modules)
    → All IsInstallable (filter_if is_vit_module modules)
    → (new_modules : List PyModule) × (patch_vit_sdpa_to_mem_efficient new_id modules
        ≡ done new_modules)
      × All IsPatched (filter_if is_vit_module new_modules)
      × All (λ m. is_installed m ≡ true) (filter_if is_vit_module new_modules)
      × Pairwise Untouched modules new_modules
      × (patch_vit_sdpa_to_mem_efficient new_id new_modules ≡ done new_modules)
unfolding patch_vit_sdpa_to_mem_efficient
patch_vit_sdpa_to_mem_efficient-total new_id modules some_module m h g =
    let cs = filter_if is_vit_module modules in
    let new = map (install_if new_id) modules in
    let installed = map-IsInstalled new_id modules g in
    let is_done : patch_vit_sdpa_to_mem_efficient new_id modules ≡ done new =
      rw
        (
          not_empty some_module cs m,
          for_each-All check_sdpa cs h,
          All-all is_installed (filter_if is_vit_module new) installed,
        )
        refl in
    let (fns, slots, untouched, again) =
      patch_vit_sdpa_to_mem_efficient-once new_id modules new is_done in
    (new, is_done, fns, slots, untouched, again)
