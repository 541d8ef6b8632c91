-- ===== src/Tiling/Cover.antt =====
-- The tiles of a grid leave no pixel of the image out.
use locate_anything_setup.Prelude.{
  ℕ, zero, suc, ◌+◌, ◌≤◌, ◌<◌, ltb, ◌≡◌, ap, subst, List, [], ◌∷◌, arith, inl, inr, Bool-cases,
  ltb→lt,
}
use mathlib.Core.List.{Memᴰ}
use locate_anything_setup.Prelude.Members.{Memᴰ-append-left, Memᴰ-append-right}
use locate_anything_setup.Float.{Float}
use locate_anything_setup.Tiling.{Tile, for_range, concat, edge, tile_at, grid, tiles, all_tiles}

-- A sequence that starts at or below `x` and ends above it crosses it in some step.
crossing :
    (f : ℕ → ℕ) (x n : ℕ) → f 0 ≤ x → x < f n → (c : ℕ) × (c < n) × (f c ≤ x) × (x < f (c + 1))
crossing f x zero h k = elim (let no : ⊥ = omega arith in no) [ ]
crossing f x (suc n) h k = elim (Bool-cases (ltb x (f n))) [
  | inl e ↦ let (c, l, a, b) = crossing f x n h (ltb→lt x (f n) e) in (c, omega arith, a, b)
  | inr e ↦ (n, omega arith, ground arith, subst (λ m. x < f m) (omega arith) k)
]

module _ {A : Type 0} where
  Memᴰ-concat :
      (a : A) (xs : List A) (xss : List (List A)) → Memᴰ a xs → Memᴰ xs xss → Memᴰ a (concat xss)
  unfolding concat
  Memᴰ-concat a xs [] m k = elim k [ ]
  Memᴰ-concat a xs (ys ∷ xss) m (Memᴰ.head e) =
      Memᴰ-append-left a ys (concat xss) (subst (Memᴰ a) e m)
  Memᴰ-concat a xs (ys ∷ xss) m (Memᴰ.tail k) =
      Memᴰ-append-right a ys (concat xss) (Memᴰ-concat a xs xss m k)

  Memᴰ-for_range : (f : ℕ → A) (n from c : ℕ) → c < n → Memᴰ (f (c + from)) (for_range n from f)
  unfolding for_range
  Memᴰ-for_range f zero from c h = elim (let no : ⊥ = omega arith in no) [ ]
  Memᴰ-for_range f (suc n) from zero h = Memᴰ.head (ap f (omega arith))
  Memᴰ-for_range f (suc n) from (suc c) h = Memᴰ.tail (
      subst (λ k. Memᴰ (f k) (for_range n (from + 1) f)) (omega arith)
        (Memᴰ-for_range f n (from + 1) c (omega arith)))

  Memᴰ-range : (f : ℕ → A) (n c : ℕ) → c < n → Memᴰ (f c) (for_range n 0 f)
  Memᴰ-range f n c h =
      subst (λ k. Memᴰ (f k) (for_range n 0 f)) (omega arith) (Memᴰ-for_range f n 0 c h)

-- The pixel `(x, y)` lies in the tile.
abbrev pub Holds : ℕ → ℕ → Tile → Type 0
Holds x y t = (t.x0 ≤ x) × (x < t.x1) × (t.y0 ≤ y) × (y < t.y1)

module _ {F : Type 0} ⦃fl : Float F⦄ where
  tile_at-Holds :
      (width height : ℕ) (base_w base_h : F) (pad_x pad_y row col x y : ℕ)
      → x < width
      → y < height
      → (edge base_w col ≤ x) × (x < edge base_w (col + 1))
      → (edge base_h row ≤ y) × (y < edge base_h (row + 1))
      → Holds x y (tile_at width height base_w base_h pad_x pad_y row col)
  unfolding tile_at
  tile_at-Holds width height base_w base_h pad_x pad_y row col x y hx hy (a, b) (c, d) =
      (omega arith, omega arith, omega arith, omega arith)

  grid-eq-tiles :
      (width height rows cols : ℕ) (overlap_ratio half : F) (ts : List Tile)
      → grid width height rows cols overlap_ratio half ≡ tiles ts
      → all_tiles width height rows cols overlap_ratio ≡ ts
  unfolding grid
  grid-eq-tiles width height rows cols overlap_ratio half ts g = ground arith

  -- When `grid` does not refuse, and the first and the last edge of the columns and of the rows are
  -- the sides of the image after rounding, every pixel of the image lies in a tile.
  pub grid_covers :
      (width height rows cols : ℕ) (overlap_ratio half : F) (ts : List Tile) (x y : ℕ)
      → grid width height rows cols overlap_ratio half ≡ tiles ts
      → edge (fl.div (fl.of_nat width) (fl.of_nat cols)) 0 ≡ 0
      → edge (fl.div (fl.of_nat width) (fl.of_nat cols)) cols ≡ width
      → edge (fl.div (fl.of_nat height) (fl.of_nat rows)) 0 ≡ 0
      → edge (fl.div (fl.of_nat height) (fl.of_nat rows)) rows ≡ height
      → x < width
      → y < height
      → (t : Tile) × Memᴰ t ts × Holds x y t
  unfolding all_tiles
  grid_covers width height rows cols overlap_ratio half ts x y g w0 w1 h0 h1 hx hy =
      let base_w = fl.div (fl.of_nat width) (fl.of_nat cols) in
      let base_h = fl.div (fl.of_nat height) (fl.of_nat rows) in
      let (c, cl, ca, cb) = crossing (edge base_w) x cols (omega arith) (omega arith) in
      let (r, rl, ra, rb) = crossing (edge base_h) y rows (omega arith) (omega arith) in
      let pad_x = fl.round (fl.mul base_w overlap_ratio) in
      let pad_y = fl.round (fl.mul base_h overlap_ratio) in
      let row : ℕ → List Tile =
        λ i. for_range cols 0 (λ j. tile_at width height base_w base_h pad_x pad_y i j) in
      let m =
        Memᴰ-concat _ (row r) (for_range rows 0 row)
          (Memᴰ-range (λ j. tile_at width height base_w base_h pad_x pad_y r j) cols c cl)
          (Memᴰ-range row rows r rl) in
      (
        tile_at width height base_w base_h pad_x pad_y r c,
        subst (Memᴰ _) (grid-eq-tiles width height rows cols overlap_ratio half ts g) m,
        tile_at-Holds _ _ _ _ _ _ _ _ _ _ hx hy (ca, cb) (ra, rb),
      )
