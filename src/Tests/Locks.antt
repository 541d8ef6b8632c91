-- ===== src/Tests/Locks.antt =====
-- Three connections that share the engine.
use locate_anything_setup.Prelude.{ℕ, ◌+◌, ◌≡◌, refl, List, false, [], ◌∷◌}
use locate_anything_setup.Worker.Lock.{
  Engine, start, running, Reach, acquire, wake, release, arrives, wakes, ends, here, next,
  active_runs,
}
use locate_anything_setup.Worker.Lock.Exclusion.{lock_excludes}
use locate_anything_setup.Worker.Lock.Line.{line-Reach}
use locate_anything_setup.Worker.Lock.Orphans.{expire_overlap}

abbrev crowded : Engine
crowded = acquire 8 (acquire 5 (acquire 3 start))

crowded_Reach : Reach start crowded
unfolding acquire
crowded_Reach =
    next (next (next here (arrives 3 refl refl refl)) (arrives 5 refl refl refl))
      (arrives 8 refl refl refl)

-- The first has its result, and the second runs.
abbrev served : Engine
served = wake 5 (8 ∷ []) (release 3 crowded)

served_Reach : Reach start served
unfolding acquire release
served_Reach =
    next (next crowded_Reach (ends 3 refl refl refl)) (wakes 5 (8 ∷ []) refl refl refl refl)

lock_excludes_example : ◌≡◌ {A = ℕ} 5 5
unfolding wake
lock_excludes_example = lock_excludes served_Reach 5 5 refl refl

line-Reach_example : ◌≡◌ {A = List ℕ} (3 ∷ 5 ∷ 8 ∷ []) (3 ∷ 5 ∷ 8 ∷ [])
unfolding served_Reach crowded_Reach wake
line-Reach_example = line-Reach served_Reach

expire_overlap_example :
    (t : Engine) × Reach served t
    × (t.exited ≡ false)
    × (t.phase 8 ≡ running)
    × (active_runs t ≡ active_runs served + 1)
unfolding wake release acquire
expire_overlap_example = expire_overlap {s = served} 5 8 [] refl refl refl
