-- ===== src/Startup/System/Fields.antt =====
-- A preprocessor configuration that passes, and the constants of the resize plan.
use locate_anything_setup.Prelude.{
  ℕ, String, ◌≡◌, refl, ap, ◌∙◌, ◌&&◌, true, false, not, Option, none, some, List, [], ◌∷◌,
  Option-cases, inl, inr, ◌∙◌,
}
use locate_anything_setup.Pixel.{in_token_limit, patch_size, merge_kernel}
use locate_anything_setup.Startup.{passed}
use locate_anything_setup.Startup.Checks.{fails, first_failure-passed, not-false, and_true}
use locate_anything_setup.Startup.Environment.{filter_if-All}
use locate_anything_setup.Startup.System.{
  Numbers, FieldValue, text, number, numbers, other, Wanted, want_nat, want_nats, PreprocessorFile,
  absent, unparsed, parsed, are_nats, same_value, is_field_drift, expected_fields,
  validate_preprocessor_config,
}

module _ {N : Type 0} (nums : Numbers N) where
  is_field_drift-same :
      (cfg : String → Option (FieldValue N)) (key : String) (want : Wanted)
      → is_field_drift nums cfg (key, want) ≡ false
      → (got : FieldValue N) × (cfg key ≡ some got) × (same_value nums got want ≡ true)
  unfolding is_field_drift
  is_field_drift-same cfg key want h = elim (Option-cases (cfg key)) [
    | inl e ↦ (let no_way : true ≡ false = rw (e, is_field_drift) at h in cc)
    | inr (got, e) ↦
        let q : not (same_value nums got want) ≡ false = rw (e, is_field_drift) at h in
        (got, e, not-false _ q)
  ]

  same_value-nat :
      (got : FieldValue N) (n : ℕ)
      → same_value nums got (want_nat n) ≡ true
      → (x : N) × (got ≡ number x) × (nums.is_nat x n ≡ true)
  unfolding same_value
  same_value-nat (number x) n h = (x, refl, h)
  same_value-nat (text t) n h = cc
  same_value-nat (numbers xs) n h = cc
  same_value-nat other n h = cc

  are_nats-pair :
      (xs : List (Option N)) (m n : ℕ)
      → are_nats nums xs (m ∷ n ∷ []) ≡ true
      → (a : N) × (b : N) × (xs ≡ some a ∷ some b ∷ [])
        × (nums.is_nat a m ≡ true)
        × (nums.is_nat b n ≡ true)
  unfolding are_nats
  are_nats-pair (some a ∷ some b ∷ []) m n h =
      let (p, rest) = and_true (nums.is_nat a m) _ h in
      let (q, end) = and_true (nums.is_nat b n) true rest in (a, b, refl, p, q)
  are_nats-pair [] m n h = cc
  are_nats-pair (none ∷ xs) m n h = cc
  are_nats-pair (some a ∷ []) m n h = (let (p, no_way) = and_true (nums.is_nat a m) false h in cc)
  are_nats-pair (some a ∷ none ∷ xs) m n h =
      (let (p, no_way) = and_true (nums.is_nat a m) false h in cc)
  are_nats-pair (some a ∷ some b ∷ none ∷ xs) m n h =
      (let (p, rest) = and_true (nums.is_nat a m) (nums.is_nat b n && false) h in
        let (q, no_way) = and_true (nums.is_nat b n) false rest in cc)
  are_nats-pair (some a ∷ some b ∷ some c ∷ xs) m n h =
      (let (p, rest) = and_true (nums.is_nat a m) (nums.is_nat b n && false) h in
        let (q, no_way) = and_true (nums.is_nat b n) false rest in cc)

  same_value-pair :
      (got : FieldValue N) (m n : ℕ)
      → same_value nums got (want_nats (m ∷ n ∷ [])) ≡ true
      → (a : N) × (b : N) × (got ≡ numbers (some a ∷ some b ∷ []))
        × (nums.is_nat a m ≡ true)
        × (nums.is_nat b n ≡ true)
  unfolding same_value
  same_value-pair (numbers xs) m n h =
      let (a, b, e, p, q) = are_nats-pair xs m n h in (a, b, ap numbers e, p, q)
  same_value-pair (text t) m n h = cc
  same_value-pair (number x) m n h = cc
  same_value-pair other m n h = cc

  -- What the resize plan takes for granted.
  abbrev pub Planned : (String → Option (FieldValue N)) → Type 0
  Planned cfg =
      ((x : N) × (cfg "in_token_limit" ≡ some (number x)) × (nums.is_nat x in_token_limit ≡ true))
      × ((x : N) × (cfg "patch_size" ≡ some (number x)) × (nums.is_nat x patch_size ≡ true))
      × ((a : N) × (b : N) × (cfg "merge_kernel_size" ≡ some (numbers (some a ∷ some b ∷ [])))
          × (nums.is_nat a merge_kernel ≡ true)
          × (nums.is_nat b merge_kernel ≡ true))

  nat_field :
      (cfg : String → Option (FieldValue N)) (key : String) (n : ℕ)
      → is_field_drift nums cfg (key, want_nat n) ≡ false
      → (x : N) × (cfg key ≡ some (number x)) × (nums.is_nat x n ≡ true)
  nat_field cfg key n h =
      let (got, e, same) = is_field_drift-same cfg key (want_nat n) h in
      let (x, shape, p) = same_value-nat got n same in (x, e ∙ ap some shape, p)

  pair_field :
      (cfg : String → Option (FieldValue N)) (key : String) (m n : ℕ)
      → is_field_drift nums cfg (key, want_nats (m ∷ n ∷ [])) ≡ false
      → (a : N) × (b : N) × (cfg key ≡ some (numbers (some a ∷ some b ∷ [])))
        × (nums.is_nat a m ≡ true)
        × (nums.is_nat b n ≡ true)
  pair_field cfg key m n h =
      let (got, e, same) = is_field_drift-same cfg key (want_nats (m ∷ n ∷ [])) h in
      let (a, b, shape, p, q) = same_value-pair got m n same in (a, b, e ∙ ap some shape, p, q)

  -- The configuration.
  pub validate_preprocessor_config-passed :
      (file : PreprocessorFile N)
      → validate_preprocessor_config nums file ≡ passed
      → (cfg : String → Option (FieldValue N)) × (file ≡ parsed cfg) × Planned cfg
  unfolding validate_preprocessor_config
  validate_preprocessor_config-passed (parsed cfg) h =
      let (c, end) = first_failure-passed _ h (refl, tt) in
      let (e1, (e2, (e3, (e4, (e5, rest))))) =
        filter_if-All (is_field_drift nums cfg) expected_fields (not-false _ c) in
      (
        cfg,
        refl,
        (
          nat_field cfg "in_token_limit" 25600 e3,
          nat_field cfg "patch_size" 14 e4,
          pair_field cfg "merge_kernel_size" 2 2 e5,
        ),
      )
  validate_preprocessor_config-passed absent h = (let no_way : true ≡ false = ap fails h in cc)
  validate_preprocessor_config-passed unparsed h = (let no_way : true ≡ false = ap fails h in cc)
