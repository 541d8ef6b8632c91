-- ===== src/Worker/Lock.antt =====
-- worker/la_worker.py, `WorkerApp.lock`: how the connections of a worker share the engine. Each is
-- named by a number. `asyncio.Lock` keeps its waiters in the order in which they came, and a release
-- lets the first of them go on, at a later turn of the event loop.
pub mod Exclusion
pub mod Line
pub mod Orphans
use locate_anything_setup.Prelude.{
  ℕ, ◌+◌, ◌≡◌, Bool, true, false, Option, none, some, List, [], ◌∷◌, ◌++◌, ◌==◌, if◌then◌else◌,
}

-- Where a connection is in `_infer` and `handle_connection`: reading a request, waiting for the lock,
-- running the engine with it, or, after a timeout or a lack of memory, about to write its last reply
-- and to exit.
pub data Phase : Type 0 where
  idle waiting running leaving : Phase

-- `orphans` counts the threads that still run the engine though their wait has timed out.
pub record Engine : Type 0 where
  pub holder : Option ℕ
  pub waiters : List ℕ
  pub phase : ℕ → Phase
  pub orphans : ℕ
  pub exited : Bool

abbrev pub start : Engine
start = record { holder = none; waiters = []; phase = λ c. idle; orphans = 0; exited = false }

abbrev pub update : {A : Type 0} → (ℕ → A) → ℕ → A → ℕ → A
update f c a d = if c == d then a else f d

-- What asking for the lock does, by its holder and its waiters.
unfoldable pub grant : ℕ → Engine → Option ℕ → List ℕ → Engine
grant c s none [] = record s { holder = some c; waiters = []; phase = update s.phase c running }
grant c s none (w ∷ ws) = record s {
  holder = none;
  waiters = w ∷ (ws ++ c ∷ []);
  phase = update s.phase c waiting;
}
grant c s (some h) ws = record s {
  holder = some h;
  waiters = ws ++ c ∷ [];
  phase = update s.phase c waiting;
}

-- `async with self.lock`: the lock is had at once if it is free and nobody waits for it.
unfoldable pub acquire : ℕ → Engine → Engine
unfolding grant
acquire c s = grant c s s.holder s.waiters

-- The first waiter, `c`, goes on.
unfoldable pub wake : ℕ → List ℕ → Engine → Engine
wake c rest s = record s { holder = some c; waiters = rest; phase = update s.phase c running }

-- The end of `async with` behind a run that ended in time.
unfoldable pub release : ℕ → Engine → Engine
release c s = record s { holder = none; phase = update s.phase c idle }

-- A lack of memory leaves `async with`, and the connection is to exit.
unfoldable pub fail : ℕ → Engine → Engine
fail c s = record s { holder = none; phase = update s.phase c leaving }

-- The timeout of `wait_for` does the same, but the thread runs on.
unfoldable pub expire : ℕ → Engine → Engine
expire c s = record s { holder = none; phase = update s.phase c leaving; orphans = s.orphans + 1 }

-- `_hard_exit_for_restart`
unfoldable pub hard_exit : Engine → Engine
hard_exit s = record s { exited = true }

-- One step of the event loop, while the process lives.
pub data Step (s t : Engine) : Type 0 where
  arrives : (c : ℕ) → s.exited ≡ false → s.phase c ≡ idle → t ≡ acquire c s → Step s t
  wakes :
      (c : ℕ) (rest : List ℕ)
      → s.exited ≡ false
      → s.holder ≡ none
      → s.waiters ≡ c ∷ rest
      → t ≡ wake c rest s
      → Step s t
  ends : (c : ℕ) → s.exited ≡ false → s.holder ≡ some c → t ≡ release c s → Step s t
  fails : (c : ℕ) → s.exited ≡ false → s.holder ≡ some c → t ≡ fail c s → Step s t
  expires : (c : ℕ) → s.exited ≡ false → s.holder ≡ some c → t ≡ expire c s → Step s t
  exits : (c : ℕ) → s.exited ≡ false → s.phase c ≡ leaving → t ≡ hard_exit s → Step s t

pub data Reach (s : Engine) : Engine → Type 0 where
  here : Reach s s
  next : {t u : Engine} → Reach s t → Step t u → Reach s u

-- How many runs of the engine go on at a time.
unfoldable pub held : Option ℕ → ℕ
held none = 0
held (some c) = 1

unfoldable pub active_runs : Engine → ℕ
unfolding held
active_runs s = held s.holder + s.orphans
