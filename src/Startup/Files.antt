-- ===== src/Startup/Files.antt =====
-- worker/validate_startup.py: the check of the model directory at boot.
pub mod Pinned
use locate_anything_setup.Prelude.{
  ℕ, Bool, true, false, not, List, [], ◌∷◌, ◌++◌, ◌+◌, ◌*◌, map, filter_if, any, ltb, if◌then◌else◌,
  ◌&&◌,
}
use locate_anything_setup.Text.{Text, codes, is_empty, equal}
use locate_anything_setup.Startup.{
  Validation, passed, no_model_dir, missing_files, no_weights, unpinned_py, small_weights,
  missing_pinned, drifted_files, first_failure,
}

-- What the check reads of the directory: which names are files, the names of `*.py`, the sizes of
-- `*.safetensors`, and the SHA-256 of a file, from hashlib.
pub record ModelDir : Type 0 where
  pub is_dir : Bool
  pub is_file : Text → Bool
  pub py_names : List Text
  pub weight_sizes : List ℕ
  pub sha256_of_file : Text → Text

-- `_PINNED_PY_SHA256`
unfoldable pub pinned_py : List (Text × Text)
pinned_py =
    (
      codes "configuration_locateanything.py",
      codes "d2738cc180add2b77e88b8cf2bc87ff012f23bd417a99150a033f61b0a8eb857",
    )
    ∷ (
      codes "configuration_qwen2.py",
      codes "1fda5efb735cae465debd414afc673389fe731afd95c934a469faa23d3d7fdf1",
    )
    ∷ (
      codes "generate_utils.py",
      codes "863187051772549928bf103b58f6176263c9b786fb19ef83fd7b2e76169fa65e",
    )
    ∷ (
      codes "image_processing_locateanything.py",
      codes "5109868add766c7e244487ecfff6a6f5a4aa1497b38b385a33a969f12e23b4ec",
    )
    ∷ (
      codes "mask_magi_utils.py",
      codes "646b565e38b30d58cafe30aeecf0283aee83d198ce8e57936c3488c1dc7b9276",
    )
    ∷ (
      codes "mask_sdpa_utils.py",
      codes "7e9d600eb25283963cc1696da060813066b9795da467cf9fb0ca68bfc8de1e1d",
    )
    ∷ (
      codes "modeling_locateanything.py",
      codes "ffe736fb8ded5d597201704ccd85134d18a8e4dea43d309228644737234b7244",
    )
    ∷ (
      codes "modeling_qwen2.py",
      codes "aadb676c0a587a16b7071977c159df16299fad22d88ee8ed9754881ab7f59575",
    )
    ∷ (
      codes "modeling_vit.py",
      codes "96479eb121c840f009a32830c78740154171290419108caefcf8778580700373",
    )
    ∷ (
      codes "processing_locateanything.py",
      codes "682145ed054b1e912e66273b476e51a25b2d666d4a37b26385af9300b66d40d8",
    )
    ∷ []

-- `_PINNED_WEIGHT_SHA256`
unfoldable pub pinned_weight : List (Text × Text)
pinned_weight =
    (
      codes "model-00001-of-00002.safetensors",
      codes "923cfc10fed19808067da6df85a9a4220ddc1f9eb91ceee94c0fecd05d0f2d58",
    )
    ∷ (
      codes "model-00002-of-00002.safetensors",
      codes "3459ba101f40594f3f62d3312014f1f8378b4ba3da3b1d562480045938fc7d47",
    )
    ∷ (
      codes "model.safetensors.index.json",
      codes "2ecc63fee5f958ffc8142fa29ff7b704a58e80349e9c9ca155a9710d97700271",
    )
    ∷ (
      codes "config.json",
      codes "59e6b5104f9d948db6a38f778e29f86d5c01e373f46d02008fc3070377917007",
    )
    ∷ (
      codes "tokenizer_config.json",
      codes "930b057de30312f861a22780017b09eccd87e893d966bd004bf4d70eec0e2652",
    )
    ∷ (
      codes "preprocessor_config.json",
      codes "34f0dc33b40ee26d280d7ed93614c90b1d41a68d6ccfe5a8341e274e6169f94e",
    )
    ∷ (
      codes "processor_config.json",
      codes "1274db3b9504d37e57ea41ba7de547194d381265c5946f6db8560f851a940992",
    )
    ∷ (
      codes "chat_template.json",
      codes "a0cb84f5108587c8a2e944ad7d4b123bb413c34baeef30e3d6d7a3bb486a835d",
    )
    ∷ (
      codes "added_tokens.json",
      codes "1a87d2bec4c707c3946235046555d91f9df6986b8dd4a3ac53e6d0b24c36d176",
    )
    ∷ (
      codes "generation_config.json",
      codes "f15f5de33244a61325923e99bad2c061029acb8d6dd5c57f8458b3949ddd8f97",
    )
    ∷ (
      codes "special_tokens_map.json",
      codes "bfadce2f545458bf9d39fc9153cd2ac1077371ed5ab553fa4988061fefe67ac7",
    )
    ∷ (codes "vocab.json", codes "87a257b04b17642a0688c98cd1df89c398bda4fee532d6f88b38a659ecb4ac8d")
    ∷ (codes "merges.txt", codes "8831e4f1a044471340f7c0a83d7bd71306a5b867e95fd870f74d0c5308a904d5")
    ∷ []

unfoldable pub required_files : List Text
required_files =
    codes "config.json"
    ∷ codes "tokenizer_config.json"
    ∷ codes "preprocessor_config.json"
    ∷ codes "processor_config.json"
    ∷ codes "chat_template.json"
    ∷ codes "added_tokens.json"
    ∷ codes "modeling_locateanything.py"
    ∷ codes "processing_locateanything.py"
    ∷ codes "image_processing_locateanything.py"
    ∷ codes "modeling_vit.py"
    ∷ codes "modeling_qwen2.py"
    ∷ codes "generation_config.json"
    ∷ codes "generate_utils.py"
    ∷ []

-- `name in pins`, for a dict of pins.
unfoldable pub is_pinned : List (Text × Text) → Text → Bool
unfolding equal
is_pinned pins name = any (λ (p : Text × Text). equal name p.0) pins

unfoldable pub sum_sizes : List ℕ → ℕ
sum_sizes [] = 0
sum_sizes (n ∷ ns) = n + sum_sizes ns

abbrev pub is_missing : ModelDir → Text × Text → Bool
is_missing dir (name, expected) = not (dir.is_file name)

unfoldable pub is_mismatch : ModelDir → Text × Text → Bool
unfolding equal
is_mismatch dir (name, expected) =
    dir.is_file name && not (equal (dir.sha256_of_file name) expected)

-- Files that cannot be read, and the timing, are left out.
unfoldable pub checks_of : ModelDir → List (Bool × Validation)
checks_of dir =
    let missing = filter_if (λ f. not (dir.is_file f)) required_files in
    let unpinned = filter_if (λ f. not (is_pinned pinned_py f)) dir.py_names in
    let total_bytes = sum_sizes dir.weight_sizes in
    let pins = pinned_py ++ pinned_weight in
    let absent = filter_if (is_missing dir) pins in
    let mismatches = filter_if (is_mismatch dir) pins in
    (not dir.is_dir, no_model_dir)
    ∷ (not (is_empty missing), missing_files missing)
    ∷ (is_empty dir.weight_sizes, no_weights)
    ∷ (not (is_empty unpinned), unpinned_py unpinned)
    ∷ (ltb total_bytes (7 * 1024 * 1024 * 1024), small_weights total_bytes)
    ∷ (not (is_empty absent), missing_pinned (map (λ (p : Text × Text). p.0) absent))
    ∷ (not (is_empty mismatches), drifted_files (map (λ (p : Text × Text). p.0) mismatches))
    ∷ []

unfoldable pub validate_model_dir : ModelDir → Validation
validate_model_dir dir = first_failure (checks_of dir)
