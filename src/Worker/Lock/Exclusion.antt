-- ===== src/Worker/Lock/Exclusion.antt =====
-- Who holds the lock and who waits for it, in every state that is reached.
use locate_anything_setup.Prelude.{
  ℕ, ◌+◌, ◌≡◌, refl, ap, ◌∙◌, Option, none, some, List, [], ◌∷◌, ◌++◌, ◌==◌, if◌then◌else◌, arith,
}
use locate_anything_setup.Worker.Lock.{
  Phase, idle, waiting, running, leaving, Engine, start, update, grant, acquire, wake, release,
  fail, expire, hard_exit, Step, arrives, wakes, ends, fails, expires, exits, Reach, here, next,
}

abbrev pub is_running : Phase → ℕ
is_running running = 1
is_running _ = 0

abbrev pub is_waiting : Phase → ℕ
is_waiting waiting = 1
is_waiting _ = 0

abbrev pub holds : Option ℕ → ℕ → ℕ
holds none d = 0
holds (some c) d = if c == d then 1 else 0

abbrev pub count : ℕ → List ℕ → ℕ
count d [] = 0
count d (c ∷ cs) = (if c == d then 1 else 0) + count d cs

pub record Inv (s : Engine) : Type 0 where
  -- A connection runs the engine exactly if it holds the lock.
  pub runs : (d : ℕ) → holds s.holder d ≡ is_running (s.phase d)
  -- It stands among the waiters once if it waits, and else not at all.
  pub waits : (d : ℕ) → count d s.waiters ≡ is_waiting (s.phase d)

count-append : (d : ℕ) (xs ys : List ℕ) → count d (xs ++ ys) ≡ count d xs + count d ys
count-append d [] ys = omega arith
count-append d (x ∷ xs) ys = omega (arith, count-append d xs ys)

grant-Inv :
    (c : ℕ) (s : Engine) (h : Option ℕ) (ws : List ℕ)
    → s.holder ≡ h
    → s.waiters ≡ ws
    → s.phase c ≡ idle
    → Inv s
    → Inv (grant c s h ws)
unfolding grant
grant-Inv c s none [] e w q v = record {
  runs = λ d. ground (arith, v.runs d, v.runs c);
  waits = λ d. ground (arith, v.waits d);
}
grant-Inv c s none (x ∷ ws) e w q v = record {
  runs = λ d. ground (arith, v.runs d, v.runs c);
  waits = λ d. ground (arith, v.waits d, v.waits c, count-append d ws (c ∷ []));
}
grant-Inv c s (some h) ws e w q v = record {
  runs = λ d. ground (arith, v.runs d, v.runs c);
  waits = λ d. ground (arith, v.waits d, v.waits c, count-append d ws (c ∷ []));
}

wake-Inv :
    (c : ℕ) (rest : List ℕ) (s : Engine)
    → s.holder ≡ none
    → s.waiters ≡ c ∷ rest
    → Inv s
    → Inv (wake c rest s)
unfolding wake
wake-Inv c rest s h w v = record {
  runs = λ d. ground (arith, v.runs d, v.runs c, v.waits c);
  waits = λ d. ground (arith, v.waits d, v.waits c);
}

-- Leaving the lock, whatever for.
leave-Inv :
    (c : ℕ) (p : Phase) (s t : Engine)
    → is_running p ≡ 0
    → is_waiting p ≡ 0
    → s.holder ≡ some c
    → t.holder ≡ none
    → t.waiters ≡ s.waiters
    → t.phase ≡ update s.phase c p
    → Inv s
    → Inv t
leave-Inv c p s t r w h e q f v = record {
  runs = λ d. ground (arith, v.runs d, v.runs c);
  waits = λ d. ground (arith, v.waits d, v.waits c, v.runs c);
}

pub Step-Inv : {s t : Engine} → Step s t → Inv s → Inv t
unfolding acquire release fail expire hard_exit
Step-Inv {s} (arrives c x h e) v = rw e (grant-Inv c s s.holder s.waiters refl refl h v)
Step-Inv {s} (wakes c rest x h w e) v = rw e (wake-Inv c rest s h w v)
Step-Inv {s} (ends c x h e) v = rw e (leave-Inv c idle s (release c s) refl refl h refl refl refl v)
Step-Inv {s} (fails c x h e) v =
    rw e (leave-Inv c leaving s (fail c s) refl refl h refl refl refl v)
Step-Inv {s} (expires c x h e) v =
    rw e (leave-Inv c leaving s (expire c s) refl refl h refl refl refl v)
Step-Inv {s} (exits c x h e) v = rw e (record { runs = v.runs; waits = v.waits })

same_holder : (h : Option ℕ) (i j : ℕ) → holds h i ≡ 1 → holds h j ≡ 1 → i ≡ j
same_holder none i j p q = absurd (omega (arith, p))
same_holder (some c) i j p q = ground arith

pub Reach-Inv : {s t : Engine} → Inv s → Reach s t → Inv t
Reach-Inv v here = v
Reach-Inv v (next r st) = Step-Inv st (Reach-Inv v r)

pub start-Inv : Inv start
start-Inv = record { runs = λ d. refl; waits = λ d. refl }

-- In every state that the connections of a worker reach, two connections that both run the engine
-- under the lock are the same one.
pub lock_excludes :
    {s : Engine} (r : Reach start s) (i j : ℕ) → s.phase i ≡ running → s.phase j ≡ running → i ≡ j
lock_excludes {s} r i j p q =
    let v = Reach-Inv start-Inv r in
    same_holder s.holder i j (v.runs i ∙ ap is_running p) (v.runs j ∙ ap is_running q)
