-- ===== src/Startup/Templates/Agree.antt =====
-- A Rust binary whose templates pass.
use locate_anything_setup.Prelude.{
  ◌≡◌, refl, sym, ap, subst, true, false, not, some, List, [], ◌∷◌, map, All, Option-cases, inl,
  inr, subst,
}
use locate_anything_setup.Prelude.Members.{any-cases}
use mathlib.Core.List.{Memᴰ}
use locate_anything_setup.Text.{Text, equal}
use locate_anything_setup.Startup.{passed}
use locate_anything_setup.Startup.Checks.{fails, first_failure-passed, not-false, and_true}
use locate_anything_setup.Startup.Environment.{filter_if-All, equal_sound}
use locate_anything_setup.Startup.Templates.{
  TemplateValue, one, several, Constants, canonical_templates, BinaryRun, printed, constants,
  constant_at, same_texts, same_template, is_template_drift, is_key, only_in, keys_differ,
  template_checks, validate_prompt_template_drift,
}

same_texts_sound : (a b : List Text) → same_texts a b ≡ true → a ≡ b
unfolding same_texts
same_texts_sound [] [] h = refl
same_texts_sound [] (b ∷ bs) h = cc
same_texts_sound (a ∷ as_) [] h = cc
same_texts_sound (a ∷ as_) (b ∷ bs) h =
    let (head, tail) = and_true (equal a b) (same_texts as_ bs) h in
    let e : a ≡ b = equal_sound a b head in let es : as_ ≡ bs = same_texts_sound as_ bs tail in cc

same_template_sound : (a b : TemplateValue) → same_template a b ≡ true → a ≡ b
unfolding same_template
same_template_sound (one a) (one b) h = ap one (equal_sound a b h)
same_template_sound (several a) (several b) h = ap several (same_texts_sound a b h)
same_template_sound (one a) (several b) h = cc
same_template_sound (one a) TemplateValue.other h = cc
same_template_sound (several a) (one b) h = cc
same_template_sound (several a) TemplateValue.other h = cc
same_template_sound TemplateValue.other b h = cc

is_template_drift-same :
    (rust : Constants) (key : Text) (v : TemplateValue)
    → is_template_drift rust (key, v) ≡ false
    → constant_at key rust ≡ some v
unfolding is_template_drift
is_template_drift-same rust key v h = elim (Option-cases (constant_at key rust)) [
  | inl e ↦ (let no_way : true ≡ false = rw (e, is_template_drift) at h in cc)
  | inr (got, e) ↦
      let q : not (same_template v got) ≡ false = rw (e, is_template_drift) at h in
      let same : v ≡ got = same_template_sound v got (not-false _ q) in cc
]

templates_All :
    (rust wanted : Constants)
    → All (λ c. is_template_drift rust c ≡ false) wanted
    → All (λ c. constant_at c.0 rust ≡ some c.1) wanted
templates_All rust [] h = tt
templates_All rust ((key, v) ∷ wanted) (h, hs) =
    (is_template_drift-same rust key v h, templates_All rust wanted hs)

is_key-Memᴰ : (keys : List Text) (key : Text) → is_key keys key ≡ true → Memᴰ key keys
unfolding is_key
is_key-Memᴰ keys key h = elim (any-cases (equal key) keys) [
  | inl (e, (k, m, q)) ↦ subst (λ t. Memᴰ t keys) (sym (equal_sound key k q)) m
  | inr (e, absent_key) ↦ cc
]

keys_All :
    (keys wanted : List Text)
    → All (λ key. not (is_key wanted key) ≡ false) keys
    → All (λ key. Memᴰ key wanted) keys
keys_All [] wanted h = tt
keys_All (key ∷ keys) wanted (h, hs) =
    (is_key-Memᴰ wanted key (not-false _ h), keys_All keys wanted hs)

only_in-All : (a b : List Text) → keys_differ a b ≡ false → All (λ key. Memᴰ key a) b
unfolding keys_differ only_in
only_in-All a b h =
    let (left, right) = and_true _ _ (not-false _ h) in
    keys_All b a (filter_if-All (λ key. not (is_key a key)) b right)

-- The templates of the binary.
pub validate_prompt_template_drift-passed :
    (run : BinaryRun)
    → validate_prompt_template_drift run ≡ passed
    → (rust : Constants) × (run ≡ printed (constants rust))
      × All (λ c. constant_at c.0 rust ≡ some c.1) canonical_templates
      × All (λ key. Memᴰ key (map (λ c. c.0) canonical_templates)) (map (λ c. c.0) rust)
unfolding validate_prompt_template_drift template_checks
validate_prompt_template_drift-passed (printed (constants rust)) h =
    let (c1, (c2, (c3, end))) =
      first_failure-passed (template_checks rust) h (refl, (refl, (refl, tt))) in
    (
      rust,
      refl,
      templates_All rust canonical_templates
          (filter_if-All (is_template_drift rust) canonical_templates (not-false _ c2)),
      only_in-All _ _ c1,
    )
validate_prompt_template_drift-passed run h = (let no_way : true ≡ false = ap fails h in cc)
