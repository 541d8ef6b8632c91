-- ===== src/Inference/Loading/Encoder/Replaced.antt =====
-- One module, before and behind `_patch_vit_sdpa_to_mem_efficient`.
use mathlib.Core.Option
use locate_anything_setup.Prelude.{
  ℕ, ◌≡◌, refl, sym, ap, ◌∙◌, subst, true, false, ◌&&◌, Option, none, some, [], ◌∷◌, Bool-cases,
  inl, inr, ◌⊎◌,
}
use locate_anything_setup.Text.{Text, codes, equal}
use locate_anything_setup.Startup.Checks.{and_true}
use locate_anything_setup.Startup.Environment.{equal_sound}
use locate_anything_setup.Inference.Loading.{
  PyModule, Function, Dispatch, lookup_fn, is_named, is_some,
}
use locate_anything_setup.Inference.Loading.Encoder.{
  sdpa, is_vit_module, is_patched_fn, set_fn, replacement, replaced, install, install_if,
}

-- The function in a slot of the dict of a module.
abbrev pub slot : Text → Option Dispatch → Option Function
slot key none = none
slot key (some d) = lookup_fn key d

lookup_fn-set_fn :
    (key : Text) (f : Function) (d : Dispatch)
    → equal sdpa key ≡ false
    → lookup_fn key (set_fn sdpa f d) ≡ lookup_fn key d
unfolding lookup_fn set_fn
lookup_fn-set_fn key f [] h = rw h refl
lookup_fn-set_fn key f ((k, g) ∷ rest) h = elim (Bool-cases (equal k sdpa)) [
  | inl e ↦
      let other : equal k key ≡ false = ap (λ t. equal t key) (equal_sound k sdpa e) ∙ h in
      rw e (rw (set_fn, lookup_fn, other) refl)
  | inr e ↦ rw e (rw (lookup_fn-set_fn key f rest h) refl)
]

pub install-cases :
    (new_id : ℕ) (m : PyModule)
    → ((is_patched_fn m.sdpa_attention ≡ true) × (install new_id m ≡ m))
      ⊎ ((is_patched_fn m.sdpa_attention ≡ false) × (install new_id m ≡ replaced new_id m))
unfolding install
install-cases new_id m = elim (Bool-cases (is_patched_fn m.sdpa_attention)) [
  | inl e ↦ inl (e, rw e refl)
  | inr e ↦ inr (e, rw e refl)
]

pub install_if-cases :
    (new_id : ℕ) (m : PyModule)
    → ((is_vit_module m ≡ false) × (install_if new_id m ≡ m))
      ⊎ ((is_vit_module m ≡ true) × (install_if new_id m ≡ install new_id m))
install_if-cases new_id m = elim (Bool-cases (is_vit_module m)) [
  | inl e ↦ inr (e, rw e refl)
  | inr e ↦ inl (e, rw e refl)
]

pub install-IsPatched :
    (new_id : ℕ) (m : PyModule) → is_patched_fn (install new_id m).sdpa_attention ≡ true
unfolding is_patched_fn
install-IsPatched new_id m = elim (install-cases new_id m) [
  | inl (e, same) ↦ ap (λ k. is_patched_fn k.sdpa_attention) same ∙ e
  | inr (e, same) ↦ ap (λ k. is_patched_fn k.sdpa_attention) same
]

install-is_vit_module :
    (new_id : ℕ) (m : PyModule) → is_vit_module m ≡ true → is_vit_module (install new_id m) ≡ true
unfolding is_vit_module is_named
install-is_vit_module new_id m h = elim (install-cases new_id m) [
  | inl (e, same) ↦ ap is_vit_module same ∙ h
  | inr (e, same) ↦
      ap is_vit_module same
      ∙ (let (p, q) = and_true (is_named (codes ".modeling_vit") m) (is_some m.sdpa_attention) h in
          ap (λ b. b && true) p)
]

slot-replaced :
    (key : Text) (f : Function) (o : Option Dispatch)
    → equal sdpa key ≡ false
    → slot key (Option.map (set_fn sdpa f) o) ≡ slot key o
slot-replaced key f none h = refl
slot-replaced key f (some d) h = lookup_fn-set_fn key f d h

-- The attributes that no replacement touches.
abbrev pub Untouched : PyModule → PyModule → Type 0
Untouched m n =
    (n.multihead_attention ≡ m.multihead_attention)
    × (slot (codes "flash_attention_2") n.dispatch ≡ slot (codes "flash_attention_2") m.dispatch)
    × (slot (codes "eager") n.dispatch ≡ slot (codes "eager") m.dispatch)

same-Untouched : (m n : PyModule) → n ≡ m → Untouched m n
same-Untouched m n e = (
  ap (λ k. k.multihead_attention) e,
  ap (λ k. slot (codes "flash_attention_2") k.dispatch) e,
  ap (λ k. slot (codes "eager") k.dispatch) e,
)

replaced-Untouched : (new_id : ℕ) (m : PyModule) → Untouched m (replaced new_id m)
unfolding equal
replaced-Untouched new_id m = (
  refl,
  slot-replaced (codes "flash_attention_2") (replacement new_id) m.dispatch refl,
  slot-replaced (codes "eager") (replacement new_id) m.dispatch refl,
)

pub install_if-Untouched : (new_id : ℕ) (m : PyModule) → Untouched m (install_if new_id m)
install_if-Untouched new_id m = elim (install_if-cases new_id m) [
  | inl (v, same) ↦ same-Untouched m (install_if new_id m) same
  | inr (v, same) ↦ elim (install-cases new_id m) [
    | inl (e, kept) ↦ same-Untouched m (install_if new_id m) (same ∙ kept)
    | inr (e, new) ↦ subst (Untouched m) (sym (same ∙ new)) (replaced-Untouched new_id m)
  ]
]

pub install_if-is_vit_module :
    (new_id : ℕ) (m : PyModule) → is_vit_module (install_if new_id m) ≡ is_vit_module m
install_if-is_vit_module new_id m = elim (install_if-cases new_id m) [
  | inl (v, same) ↦ ap is_vit_module same
  | inr (v, same) ↦ ap is_vit_module same ∙ install-is_vit_module new_id m v ∙ sym v
]

pub install_if-again :
    (new_id : ℕ) (m : PyModule) → install_if new_id (install_if new_id m) ≡ install_if new_id m
install_if-again new_id m = elim (install_if-cases new_id m) [
  | inl (v, same) ↦ ap (install_if new_id) same
  | inr (v, same) ↦ elim (install_if-cases new_id (install new_id m)) [
    | inl (w, kept) ↦ ap (install_if new_id) same ∙ kept ∙ sym same
    | inr (w, more) ↦ elim (install-cases new_id (install new_id m)) [
      | inl (p, kept) ↦ ap (install_if new_id) same ∙ more ∙ kept ∙ sym same
      | inr (p, new) ↦ (let no_way : true ≡ false = sym (install-IsPatched new_id m) ∙ p in cc)
    ]
  ]
]
