-- ===== src/Inference/Loading/Language/Once.antt =====
-- The classes that `_patch_sdpa_to_mem_efficient` leaves.
use locate_anything_setup.Prelude.{
  ℕ, ◌≡◌, refl, sym, ap, ◌∙◌, subst, Bool, true, false, ◌||◌, List, [], ◌∷◌, ◌==◌, ==_iff, arith,
  All, any, Bool-cases, inl, inr, if◌then◌else◌, ◌⊎◌,
}
use locate_anything_setup.Text.{is_empty}
use locate_anything_setup.Inference.Loading.{
  PyModule, done, check, for_each, ◌>>◌, no_qwen2_module, attention_not_patched,
}
use locate_anything_setup.Inference.Loading.Chain.{>>=-done, check-done, for_each-done}
use locate_anything_setup.Inference.Loading.Language.{
  Classes, qwen2_classes, mro, is_patched_class, check_class, wrap, patch_class, patch_all,
  patch_sdpa_to_mem_efficient, not,
}

any-weaken :
    {A : Type 0} (p q : A → Bool)
    → ((x : A) → p x ≡ true → q x ≡ true)
    → (xs : List A) → any p xs ≡ true
    → any q xs ≡ true
any-weaken p q f [] h = cc
any-weaken p q f (x ∷ xs) h = elim (Bool-cases (p x)) [
  | inl e ↦ ap (λ b. b || any q xs) (f x e)
  | inr e ↦
      let rest : any p xs ≡ true = rw e at h in
      let ih : any q xs ≡ true = any-weaken p q f xs rest in ground arith
]

patch_class-skip :
    (classes : Classes) (c : ℕ)
    → is_patched_class classes c ≡ true
    → patch_class classes c ≡ classes
unfolding patch_class
patch_class-skip classes c e = rw e refl

patch_class-at :
    (classes : Classes) (c d : ℕ)
    → is_patched_class classes c ≡ false
    → patch_class classes c d ≡ (if d == c then wrap classes c else classes d)
unfolding patch_class
patch_class-at classes c d e = rw e refl

-- What a class is: that of before, or that class with a wrapped `forward`.
patch_class-cases :
    (classes : Classes) (c d : ℕ)
    → (patch_class classes c d ≡ classes d) ⊎ ((d ≡ c) × (patch_class classes c d ≡ wrap classes d))
patch_class-cases classes c d = elim (Bool-cases (is_patched_class classes c)) [
  | inl e ↦ inl (ap (λ f. f d) (patch_class-skip classes c e))
  | inr e ↦ elim (Bool-cases (d == c)) [
    | inl b ↦
        let same : d ≡ c = (==_iff d c).0 b in
        let at : patch_class classes c d ≡ wrap classes c =
          rw b at (patch_class-at classes c d e) in
        inr (same, at ∙ ap (wrap classes) (sym same))
    | inr b ↦ inl (rw b at (patch_class-at classes c d e))
  ]
]

patch_class-tagged :
    (classes : Classes) (c d : ℕ)
    → (classes d).is_tagged ≡ true
    → (patch_class classes c d).is_tagged ≡ true
patch_class-tagged classes c d h = elim (patch_class-cases classes c d) [
  | inl e ↦ ap (λ k. k.is_tagged) e ∙ h
  | inr (same, e) ↦ ap (λ k. k.is_tagged) e
]

patch_class-bases :
    (classes : Classes) (c d : ℕ) → (patch_class classes c d).bases ≡ (classes d).bases
patch_class-bases classes c d = elim (patch_class-cases classes c d) [
  | inl e ↦ ap (λ k. k.bases) e
  | inr (same, e) ↦ ap (λ k. k.bases) e
]

patch_class-keeps :
    (classes : Classes) (c d : ℕ)
    → is_patched_class classes d ≡ true
    → is_patched_class (patch_class classes c) d ≡ true
unfolding is_patched_class
patch_class-keeps classes c d h =
    let weak =
      any-weaken (λ e. (classes e).is_tagged) (λ e. (patch_class classes c e).is_tagged)
        (patch_class-tagged classes c) (mro classes d) h in
    rw (patch_class-bases classes c d) weak

patch_class-IsPatched :
    (classes : Classes) (c : ℕ) → is_patched_class (patch_class classes c) c ≡ true
unfolding is_patched_class
patch_class-IsPatched classes c = elim (Bool-cases (is_patched_class classes c)) [
  | inl e ↦ patch_class-keeps classes c c e
  | inr e ↦
      let own : (c == c) ≡ true = (==_iff c c).1 refl in
      let at : patch_class classes c c ≡ wrap classes c =
        rw own at (patch_class-at classes c c e) in
      rw at refl
]

patch_all-keeps :
    (classes : Classes) (cs : List ℕ) (d : ℕ)
    → is_patched_class classes d ≡ true
    → is_patched_class (patch_all classes cs) d ≡ true
unfolding patch_all
patch_all-keeps classes [] d h = h
patch_all-keeps classes (c ∷ cs) d h =
    patch_all-keeps (patch_class classes c) cs d (patch_class-keeps classes c d h)

pub patch_all-All :
    (classes : Classes) (cs : List ℕ)
    → All (λ c. is_patched_class (patch_all classes cs) c ≡ true) cs
unfolding patch_all
patch_all-All classes [] = tt
patch_all-All classes (c ∷ cs) = (
  patch_all-keeps (patch_class classes c) cs c (patch_class-IsPatched classes c),
  patch_all-All (patch_class classes c) cs,
)

patch_all-skip :
    (classes : Classes) (cs : List ℕ)
    → All (λ c. is_patched_class classes c ≡ true) cs
    → patch_all classes cs ≡ classes
unfolding patch_all
patch_all-skip classes [] h = refl
patch_all-skip classes (c ∷ cs) (e, es) =
    rw (patch_class-skip classes c e) (patch_all-skip classes cs es)

check_class-skip :
    (classes : Classes) (cs : List ℕ)
    → All (λ c. is_patched_class classes c ≡ true) cs
    → for_each (check_class classes) cs ≡ done tt
unfolding check_class
check_class-skip classes [] h = refl
check_class-skip classes (c ∷ cs) (e, es) = rw e (check_class-skip classes cs es)

-- A patch that is done, and one more.
pub patch_sdpa_to_mem_efficient-once :
    (modules : List PyModule) (live : ℕ) (classes new_classes : Classes)
    → patch_sdpa_to_mem_efficient modules live classes ≡ done new_classes
    → All (λ c. check_class classes c ≡ done tt) (qwen2_classes modules)
      × All (λ c. is_patched_class new_classes c ≡ true) (qwen2_classes modules)
      × (is_patched_class new_classes live ≡ true)
      × (patch_sdpa_to_mem_efficient modules live new_classes ≡ done new_classes)
unfolding patch_sdpa_to_mem_efficient
patch_sdpa_to_mem_efficient-once modules live classes new_classes h =
    let cs = qwen2_classes modules in
    let new = patch_all classes cs in
    let (a, h1) =
      check-done (not (is_empty cs)) no_qwen2_module
        (for_each (check_class classes) cs
          >> (check (is_patched_class new live) attention_not_patched >> done new))
        new_classes h in
    let (u, b, h2) =
      >>=-done (for_each (check_class classes) cs)
        (λ _. check (is_patched_class new live) attention_not_patched >> done new) new_classes h1 in
    let (c, h3) =
      check-done (is_patched_class new live) attention_not_patched (done new) new_classes h2 in
    let same : new ≡ new_classes = cc in
    let all_patched : All (λ c. is_patched_class new c ≡ true) cs = patch_all-All classes cs in
    let again : patch_sdpa_to_mem_efficient modules live new ≡ done new =
      rw (patch_all-skip new cs all_patched)
        (rw a (rw (check_class-skip new cs all_patched) (rw c refl))) in
    (
      for_each-done (check_class classes) cs b,
      subst (λ k. All (λ c. is_patched_class k c ≡ true) cs) same all_patched,
      subst (λ k. is_patched_class k live ≡ true) same c,
      subst (λ k. patch_sdpa_to_mem_efficient modules live k ≡ done k) same again,
    )
