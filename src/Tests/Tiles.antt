-- ===== src/Tests/Tiles.antt =====
-- A grid of two columns, and three boxes of which two are duplicates.
use locate_anything_setup.Tiling.Again.{nms-Kept_again}
use locate_anything_setup.Prelude.{ℕ, ◌≡◌, refl, List, [], ◌∷◌, All, true, some, arith}
use mathlib.Core.List.{Memᴰ}
use locate_anything_setup.Text.{codes}
use locate_anything_setup.Tiling.{Tile, grid, tiles, Box, nms, area, is_dup, iou}
use locate_anything_setup.Tiling.Cover.{Holds, grid_covers}
use locate_anything_setup.Tiling.Suppress.{Apart, Kept}
use locate_anything_setup.Tests.Base.{thousandths, thousandths-IsOrder}

abbrev left_tile : Tile
left_tile = record { row = 0; col = 0; x0 = 0; y0 = 0; x1 = 60; y1 = 50 }

abbrev right_tile : Tile
right_tile = record { row = 0; col = 1; x0 = 40; y0 = 0; x1 = 100; y1 = 50 }

two_tiles : grid {F = ℕ} 100 50 1 2 200 500 ≡ tiles (left_tile ∷ right_tile ∷ [])
unfolding grid thousandths
two_tiles = refl

grid_covers_example : (t : Tile) × Memᴰ t (left_tile ∷ right_tile ∷ []) × Holds 70 20 t
unfolding thousandths locate_anything_setup.Tiling.edge
grid_covers_example =
    grid_covers 100 50 1 2 200 500 (left_tile ∷ right_tile ∷ []) 70 20 two_tiles refl refl refl refl
      (omega arith) (omega arith)

abbrev drone_box : ℕ → ℕ → Box ℕ
drone_box lo hi = record { label = some (codes "drone"); bbox_px = (lo, lo, hi, hi) }

abbrev three_boxes : List (Box ℕ)
three_boxes = drone_box 0 9000 ∷ drone_box 20000 30000 ∷ drone_box 0 10000 ∷ []

nms_run : nms three_boxes 500 true ≡ drone_box 20000 30000 ∷ drone_box 0 10000 ∷ []
unfolding nms thousandths area is_dup iou locate_anything_setup.Tiling.labels_differ
nms_run = refl

nms-Kept_again_example :
    Apart true 500 (nms three_boxes 500 true)
    × All (λ k. Memᴰ k three_boxes) (nms three_boxes 500 true)
    × All (Kept true 500 (nms three_boxes 500 true)) three_boxes
    × (nms (nms three_boxes 500 true) 500 true ≡ nms three_boxes 500 true)
nms-Kept_again_example = nms-Kept_again thousandths-IsOrder three_boxes 500 true
