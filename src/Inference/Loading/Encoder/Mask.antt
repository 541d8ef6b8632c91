-- ===== src/Inference/Loading/Encoder/Mask.antt =====
-- worker/inference.py, `patched_sdpa_attention`: which patches of the images attend to each other.
-- `q_cu_seqlens` are the ends of the images in the sequence, with 0 in front.
use locate_anything_setup.Prelude.{ℕ, Bool, false, ◌&&◌, ◌||◌, List, [], ◌∷◌, leb, ltb}

-- `[s:e, s:e]`
abbrev pub in_block : ℕ → ℕ → ℕ → ℕ → Bool
in_block s e i j = (leb s i && ltb i e) && (leb s j && ltb j e)

-- `bool_mask`, at a row and a column.
unfoldable pub bool_mask : List ℕ → ℕ → ℕ → Bool
bool_mask [] i j = false
bool_mask (s ∷ rest) i j =
    let others = bool_mask rest i j in elim rest [ [] ↦ false | e ∷ _ ↦ in_block s e i j || others ]
