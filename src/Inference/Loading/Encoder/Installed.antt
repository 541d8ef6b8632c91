-- ===== src/Inference/Loading/Encoder/Installed.antt =====
-- The modules that `_patch_vit_sdpa_to_mem_efficient` leaves.
use locate_anything_setup.Prelude.{
  ℕ, ◌≡◌, refl, ◌∙◌, subst, true, not, List, [], ◌∷◌, map, filter_if, filter_if-keeps,
  filter_if-drops, All, Bool-cases, Option-cases, inl, inr,
}
use locate_anything_setup.Text.{is_empty}
use locate_anything_setup.Inference.Loading.{
  PyModule, done, check, for_each, ◌>>◌, all, no_vit_module, dispatch_not_patched,
}
use locate_anything_setup.Inference.Loading.Chain.{>>=-done, check-done, all-All}
use locate_anything_setup.Inference.Loading.Encoder.{
  is_vit_module, is_patched_fn, check_sdpa, install_if, is_installed,
  patch_vit_sdpa_to_mem_efficient,
}
use locate_anything_setup.Inference.Loading.Encoder.Replaced.{
  Untouched, install-IsPatched, install_if-Untouched, install_if-is_vit_module, install_if-again,
}

-- One after the other.
abbrev pub Pairwise : {A : Type 0} → (A → A → Type 0) → List A → List A → Type 0
Pairwise R [] [] = Unit
Pairwise R (a ∷ as_) (b ∷ bs) = R a b × Pairwise R as_ bs
Pairwise R _ _ = ⊥

abbrev pub IsPatched : PyModule → Type 0
IsPatched m = is_patched_fn m.sdpa_attention ≡ true

-- What one of the candidates is behind the second loop.
install_if-IsPatched :
    (new_id : ℕ) (m : PyModule) → is_vit_module m ≡ true → IsPatched (install_if new_id m)
install_if-IsPatched new_id m v = rw v (install-IsPatched new_id m)

map-IsPatched :
    (new_id : ℕ) (ms : List PyModule)
    → All IsPatched (filter_if is_vit_module (map (install_if new_id) ms))
map-IsPatched new_id [] = tt
map-IsPatched new_id (m ∷ ms) =
    let n = install_if new_id m in
    let rest = map (install_if new_id) ms in
    elim (Bool-cases (is_vit_module m)) [
      | inl v ↦
          rw (filter_if-keeps is_vit_module n rest (install_if-is_vit_module new_id m ∙ v))
            (install_if-IsPatched new_id m v, map-IsPatched new_id ms)
      | inr v ↦
          rw (filter_if-drops is_vit_module n rest (install_if-is_vit_module new_id m ∙ v))
            (map-IsPatched new_id ms)
    ]

filter_if-map-is_empty :
    (new_id : ℕ) (ms : List PyModule)
    → is_empty (filter_if is_vit_module (map (install_if new_id) ms))
      ≡ is_empty (filter_if is_vit_module ms)
filter_if-map-is_empty new_id [] = refl
filter_if-map-is_empty new_id (m ∷ ms) =
    let n = install_if new_id m in
    let rest = map (install_if new_id) ms in
    elim (Bool-cases (is_vit_module m)) [
      | inl v ↦
          rw
            (
              filter_if-keeps is_vit_module n rest (install_if-is_vit_module new_id m ∙ v),
              filter_if-keeps is_vit_module m ms v,
            )
            refl
      | inr v ↦
          rw
            (
              filter_if-drops is_vit_module n rest (install_if-is_vit_module new_id m ∙ v),
              filter_if-drops is_vit_module m ms v,
            )
            (filter_if-map-is_empty new_id ms)
    ]

map-again :
    (new_id : ℕ) (ms : List PyModule)
    → map (install_if new_id) (map (install_if new_id) ms) ≡ map (install_if new_id) ms
map-again new_id [] = refl
map-again new_id (m ∷ ms) = rw (install_if-again new_id m, map-again new_id ms) refl

check_sdpa-skip : (ms : List PyModule) → All IsPatched ms → for_each check_sdpa ms ≡ done tt
unfolding check_sdpa is_patched_fn
check_sdpa-skip [] h = refl
check_sdpa-skip (m ∷ ms) (e, es) = elim (Option-cases m.sdpa_attention) [
  | inl none_here ↦ rw none_here (check_sdpa-skip ms es)
  | inr (f, some_here) ↦
      let tag : f.is_patched ≡ true = rw (some_here, is_patched_fn) at e in
      rw some_here (rw tag (check_sdpa-skip ms es))
]

map-Untouched :
    (new_id : ℕ) (ms : List PyModule) → Pairwise Untouched ms (map (install_if new_id) ms)
map-Untouched new_id [] = tt
map-Untouched new_id (m ∷ ms) = (install_if-Untouched new_id m, map-Untouched new_id ms)

-- A patch that is done, and one more.
pub patch_vit_sdpa_to_mem_efficient-once :
    (new_id : ℕ) (modules new_modules : List PyModule)
    → patch_vit_sdpa_to_mem_efficient new_id modules ≡ done new_modules
    → All IsPatched (filter_if is_vit_module new_modules)
      × All (λ m. is_installed m ≡ true) (filter_if is_vit_module new_modules)
      × Pairwise Untouched modules new_modules
      × (patch_vit_sdpa_to_mem_efficient new_id new_modules ≡ done new_modules)
unfolding patch_vit_sdpa_to_mem_efficient
patch_vit_sdpa_to_mem_efficient-once new_id modules new_modules h =
    let cs = filter_if is_vit_module modules in
    let new = map (install_if new_id) modules in
    let new_cs = filter_if is_vit_module new in
    let last = check (all is_installed new_cs) dispatch_not_patched >> done new in
    let (a, h1) =
      check-done (not (is_empty cs)) no_vit_module (for_each check_sdpa cs >> last) new_modules h in
    let (u, b, h2) = >>=-done (for_each check_sdpa cs) (λ _. last) new_modules h1 in
    let (c, h3) =
      check-done (all is_installed new_cs) dispatch_not_patched (done new) new_modules h2 in
    let same : new ≡ new_modules = cc in
    let again : patch_vit_sdpa_to_mem_efficient new_id new ≡ done new =
      rw
        (
          map-again new_id modules,
          filter_if-map-is_empty new_id modules,
          a,
          check_sdpa-skip new_cs (map-IsPatched new_id modules),
          c,
        )
        refl in
    (
      subst (λ k. All IsPatched (filter_if is_vit_module k)) same (map-IsPatched new_id modules),
      subst (λ k. All (λ m. is_installed m ≡ true) (filter_if is_vit_module k)) same
          (all-All is_installed new_cs c),
      subst (Pairwise Untouched modules) same (map-Untouched new_id modules),
      subst (λ k. patch_vit_sdpa_to_mem_efficient new_id k ≡ done k) same again,
    )
