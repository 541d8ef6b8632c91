-- ===== src/Worker/Lock/Line.antt =====
-- The lock as a line: those who hold it or wait for it, in the order in which they are served.
use locate_anything_setup.Prelude.{
  ℕ, ◌≡◌, refl, sym, ap, ◌∙◌, Option, none, some, List, [], ◌∷◌, ◌++◌, append_assoc, append-nil,
}
use locate_anything_setup.Worker.Lock.{
  Engine, grant, acquire, wake, release, fail, expire, hard_exit, Step, arrives, wakes, ends, fails,
  expires, exits, Reach, here, next,
}

abbrev pub front : Option ℕ → List ℕ
front none = []
front (some c) = c ∷ []

abbrev pub line : Engine → List ℕ
line s = front s.holder ++ s.waiters

-- Who asks for the lock in a step, and who leaves it.
abbrev pub joined : {s t : Engine} → Step s t → List ℕ
joined (arrives c x h e) = c ∷ []
joined (wakes c rest x h w e) = []
joined (ends c x h e) = []
joined (fails c x h e) = []
joined (expires c x h e) = []
joined (exits c x h e) = []

abbrev pub left : {s t : Engine} → Step s t → List ℕ
left (arrives c x h e) = []
left (wakes c rest x h w e) = []
left (ends c x h e) = c ∷ []
left (fails c x h e) = c ∷ []
left (expires c x h e) = c ∷ []
left (exits c x h e) = []

abbrev pub arrivals : {s t : Engine} → Reach s t → List ℕ
arrivals here = []
arrivals (next r st) = arrivals r ++ joined st

abbrev pub departures : {s t : Engine} → Reach s t → List ℕ
departures here = []
departures (next r st) = departures r ++ left st

line-grant :
    (c : ℕ) (s : Engine) (h : Option ℕ) (ws : List ℕ)
    → line (grant c s h ws) ≡ (front h ++ ws) ++ c ∷ []
unfolding grant
line-grant c s none [] = refl
line-grant c s none (w ∷ ws) = refl
line-grant c s (some h) ws = refl

line-step : {s t : Engine} (st : Step s t) → line s ++ joined st ≡ left st ++ line t
unfolding acquire wake release fail expire hard_exit
line-step {s} (arrives c x h e) = rw e (sym (line-grant c s s.holder s.waiters))
line-step {s} (wakes c rest x h w e) = rw (e, h, w) (append-nil _)
line-step {s} (ends c x h e) = rw (e, h) (append-nil _)
line-step {s} (fails c x h e) = rw (e, h) (append-nil _)
line-step {s} (expires c x h e) = rw (e, h) (append-nil _)
line-step {s} (exits c x h e) = rw e (append-nil _)

-- The lock is a first-come-first-served queue: from any state, those in line (the holder and the
-- waiters) followed by those who ask for the lock, in their order, are those who leave it, in their
-- order, followed by those who are then in line.
pub line-Reach : {s t : Engine} (r : Reach s t) → line s ++ arrivals r ≡ departures r ++ line t
line-Reach {s} here = append-nil (line s)
line-Reach {s} (next {t} {u} r st) =
    sym (append_assoc (line s) (arrivals r) (joined st))
    ∙ ap (λ l. l ++ joined st) (line-Reach r)
    ∙ append_assoc (departures r) (line t) (joined st)
    ∙ ap (λ l. departures r ++ l) (line-step st)
    ∙ sym (append_assoc (departures r) (left st) (line u))
