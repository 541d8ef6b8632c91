-- ===== src/Worker/Lock/Orphans.antt =====
-- Threads that run the engine though their wait has timed out.
use locate_anything_setup.Prelude.{
  ℕ, ◌+◌, ◌<◌, ◌≡◌, ◌≢◌, refl, true, false, Option, none, some, List, [], ◌∷◌, arith,
}
use locate_anything_setup.Worker.Lock.{
  Phase, idle, waiting, running, leaving, Engine, start, update, grant, acquire, wake, release,
  fail, expire, hard_exit, Step, arrives, wakes, ends, fails, expires, exits, Reach, here, next,
  held, active_runs,
}
use locate_anything_setup.Worker.Lock.Exclusion.{Inv, Reach-Inv, start-Inv}

-- Who is to exit stays so.
abbrev Leaves : Engine → Type 0
Leaves s = (c : ℕ) × (s.phase c ≡ leaving)

leaving-update :
    (s : Engine) (c d : ℕ) (p : Phase)
    → s.phase d ≡ leaving
    → s.phase c ≢ leaving
    → update s.phase c p d ≡ leaving
leaving-update s c d p h n = ground arith

grant-phase :
    (c : ℕ) (s : Engine) (h : Option ℕ) (ws : List ℕ)
    → (p : Phase) × ((grant c s h ws).phase ≡ update s.phase c p)
unfolding grant
grant-phase c s none [] = (running, refl)
grant-phase c s none (w ∷ ws) = (waiting, refl)
grant-phase c s (some h) ws = (waiting, refl)

grant-orphans :
    (c : ℕ) (s : Engine) (h : Option ℕ) (ws : List ℕ) → (grant c s h ws).orphans ≡ s.orphans
unfolding grant
grant-orphans c s none [] = refl
grant-orphans c s none (w ∷ ws) = refl
grant-orphans c s (some h) ws = refl

holder_not_leaving : (s : Engine) (c : ℕ) → Inv s → s.holder ≡ some c → s.phase c ≢ leaving
holder_not_leaving s c v h q = ground (arith, v.runs c)

Step-Leaves : {s t : Engine} → Inv s → Step s t → Leaves s → Leaves t
unfolding acquire wake release fail expire hard_exit
Step-Leaves {s} v (arrives c x h e) (d, l) =
    let (p, q) = grant-phase c s s.holder s.waiters in
    (d, rw e (rw q (leaving-update s c d p l (λ k. cc))))
Step-Leaves {s} v (wakes c rest x h w e) (d, l) =
    (d, rw e (leaving-update s c d running l (λ k. ground (arith, v.waits c))))
Step-Leaves {s} v (ends c x h e) (d, l) =
    (d, rw e (leaving-update s c d idle l (holder_not_leaving s c v h)))
Step-Leaves {s} v (fails c x h e) (d, l) =
    (d, rw e (leaving-update s c d leaving l (holder_not_leaving s c v h)))
Step-Leaves {s} v (expires c x h e) (d, l) =
    (d, rw e (leaving-update s c d leaving l (holder_not_leaving s c v h)))
Step-Leaves v (exits c x h e) (d, l) = (c, rw e h)

-- A timeout makes a connection that is to exit.
Step-orphans :
    {s t : Engine} → Inv s → Step s t → (0 < s.orphans → Leaves s) → 0 < t.orphans → Leaves t
unfolding acquire wake release fail expire hard_exit
Step-orphans {s} v (arrives c x h e) old o =
    Step-Leaves v (arrives c x h e) (old (ground (arith, grant-orphans c s s.holder s.waiters)))
Step-orphans v (wakes c rest x h w e) old o =
    Step-Leaves v (wakes c rest x h w e) (old (ground arith))
Step-orphans v (ends c x h e) old o = Step-Leaves v (ends c x h e) (old (ground arith))
Step-orphans v (fails c x h e) old o = Step-Leaves v (fails c x h e) (old (ground arith))
Step-orphans v (expires c x h e) old o = (c, rw e (ground arith))
Step-orphans v (exits c x h e) old o = Step-Leaves v (exits c x h e) (old (ground arith))

Reach-orphans : {s : Engine} → Reach start s → 0 < s.orphans → Leaves s
Reach-orphans here o = absurd (omega arith)
Reach-orphans (next r st) o = Step-orphans (Reach-Inv start-Inv r) st (Reach-orphans r) o

-- In every state that is reached in which a thread runs on behind its timeout, and the process
-- lives, some step ends the process.
pub orphans_exit :
    {s : Engine}
    → Reach start s
    → 0 < s.orphans
    → s.exited ≡ false
    → (t : Engine) × Step s t × (t.exited ≡ true)
unfolding hard_exit
orphans_exit {s} r o x = let (c, l) = Reach-orphans r o in (hard_exit s, exits c x l refl, refl)

-- Where a connection holds the lock and another waits first in line, and the process lives, a state
-- can be reached in which the process lives, the other runs the engine, and one run more than
-- before goes on: the thread that the timeout left behind.
pub expire_overlap :
    {s : Engine} (c w : ℕ) (ws : List ℕ)
    → s.exited ≡ false
    → s.holder ≡ some c
    → s.waiters ≡ w ∷ ws
    → (t : Engine) × Reach s t
      × (t.exited ≡ false)
      × (t.phase w ≡ running)
      × (active_runs t ≡ active_runs s + 1)
unfolding expire wake active_runs held
expire_overlap {s} c w ws x h q = (
  wake w ws (expire c s),
  next (next here (expires c x h refl)) (wakes w ws x refl q refl),
  x,
  ground arith,
  ground arith,
)
