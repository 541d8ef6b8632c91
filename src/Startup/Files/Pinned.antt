-- ===== src/Startup/Files/Pinned.antt =====
-- What a model directory that passes holds.
use locate_anything_setup.Prelude.{
  ◌≡◌, refl, sym, ap, ◌∙◌, true, false, not, List, [], ◌∷◌, ◌++◌, All, inl, inr, subst,
}
use locate_anything_setup.Prelude.Members.{All-map, All-Memᴰ, any-cases, Memᴰ-append-left}
use mathlib.Core.List.{Memᴰ}
use locate_anything_setup.Text.{Text, equal}
use locate_anything_setup.Startup.{passed}
use locate_anything_setup.Startup.Checks.{first_failure-passed, not-false}
use locate_anything_setup.Startup.Environment.{filter_if-All, equal_sound}
use locate_anything_setup.Startup.Files.{
  ModelDir, pinned_py, pinned_weight, is_pinned, is_missing, is_mismatch, checks_of,
  validate_model_dir,
}

is_mismatch-same :
    (dir : ModelDir) (pin : Text × Text)
    → is_missing dir pin ≡ false
    → is_mismatch dir pin ≡ false
    → (dir.is_file pin.0 ≡ true) × (dir.sha256_of_file pin.0 ≡ pin.1)
unfolding is_mismatch
is_mismatch-same dir (name, want) h m =
    let there : dir.is_file name ≡ true = not-false (dir.is_file name) h in
    let q : not (equal (dir.sha256_of_file name) want) ≡ false = rw there at m in
    (there, equal_sound (dir.sha256_of_file name) want (not-false _ q))

is_pinned-Memᴰ :
    (pins : List (Text × Text)) (name : Text)
    → is_pinned pins name ≡ true
    → (pin : Text × Text) × (Memᴰ pin pins) × (name ≡ pin.0)
unfolding is_pinned
is_pinned-Memᴰ pins name h = elim (any-cases (λ (p : Text × Text). equal name p.0) pins) [
  | inl (e, (pin, m, q)) ↦ (pin, m, equal_sound name pin.0 q)
  | inr (e, absent) ↦ cc
]

mismatch_All :
    (dir : ModelDir) (pins : List (Text × Text))
    → All (λ pin. is_missing dir pin ≡ false) pins
    → All (λ pin. is_mismatch dir pin ≡ false) pins
    → All (λ pin. (dir.is_file pin.0 ≡ true) × (dir.sha256_of_file pin.0 ≡ pin.1)) pins
mismatch_All dir [] h k = tt
mismatch_All dir (pin ∷ pins) (h, hs) (k, ks) =
    (is_mismatch-same dir pin h k, mismatch_All dir pins hs ks)

-- The names of a pinned dict are those of files with the pinned content.
is_pinned-sha :
    (dir : ModelDir) (py weight : List (Text × Text))
    → All (λ pin. (dir.is_file pin.0 ≡ true) × (dir.sha256_of_file pin.0 ≡ pin.1)) (py ++ weight)
    → (name : Text) → not (is_pinned py name) ≡ false
    → (sha : Text) × (Memᴰ (name, sha) py) × (dir.sha256_of_file name ≡ sha)
is_pinned-sha dir py weight h name q =
    let ((k, sha), m, e) = is_pinned-Memᴰ py name (not-false _ q) in
    let good =
      All-Memᴰ (λ pin. (dir.is_file pin.0 ≡ true) × (dir.sha256_of_file pin.0 ≡ pin.1)) (k, sha)
        (py ++ weight) h (Memᴰ-append-left (k, sha) py weight m) in
    (sha, subst (λ n. Memᴰ (n, sha) py) (sym e) m, ap dir.sha256_of_file e ∙ good.1)

-- Where the check of the model directory passes, every pinned file is there with the content of its
-- pin, and every Python file of the directory is a pinned one and has that content.
pub validate_model_dir-pinned :
    (dir : ModelDir)
    → validate_model_dir dir ≡ passed
    → All
        (λ pin. (dir.is_file pin.0 ≡ true) × (dir.sha256_of_file pin.0 ≡ pin.1))
        (pinned_py ++ pinned_weight)
      × All
          (λ name. (sha : Text) × (Memᴰ (name, sha) pinned_py) × (dir.sha256_of_file name ≡ sha))
          dir.py_names
unfolding validate_model_dir checks_of
validate_model_dir-pinned dir h =
    let (c1, (c2, (c3, (c4, (c5, (c6, (c7, end))))))) =
      first_failure-passed (checks_of dir) h
        (refl, (refl, (refl, (refl, (refl, (refl, (refl, tt))))))) in
    let same =
      mismatch_All dir (pinned_py ++ pinned_weight)
        (filter_if-All (is_missing dir) (pinned_py ++ pinned_weight) (not-false _ c6))
        (filter_if-All (is_mismatch dir) (pinned_py ++ pinned_weight) (not-false _ c7)) in
    (
      same,
      All-map dir.py_names (is_pinned-sha dir pinned_py pinned_weight same)
          (filter_if-All (λ f. not (is_pinned pinned_py f)) dir.py_names (not-false _ c4)),
    )
