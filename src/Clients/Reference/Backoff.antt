-- ===== src/Clients/Reference/Backoff.antt =====
-- When the client gives up, and how long it waits.
use locate_anything_setup.Prelude.{
  ℕ, zero, suc, ◌+◌, ◌*◌, ◌^◌, ◌≤◌, ◌≡◌, max, Bool, true, false, List, [], ◌∷◌, ◌++◌, length, leb,
  All, ◌⊎◌, if◌then◌else◌, arith,
}
use locate_anything_setup.Clients.Reference.{
  RunEnd, clean, closed_ok, closed_error, failed, Options, next_errors, delay, LoopEnd, stopped,
  aborted, reconnect,
}

abbrev pub IsError : RunEnd → Type 0
IsError clean = ⊥
IsError closed_ok = ⊥
IsError closed_error = Unit {0}
IsError failed = Unit {0}

-- Some errors in a row, as many as are allowed; at the front they may begin with `n` of before.
abbrev Streak : ℕ → ℕ → List RunEnd → Type 0
Streak limit n es =
    (pre : List RunEnd) × (row : List RunEnd) × (post : List RunEnd) × (es ≡ pre ++ (row ++ post))
    × All IsError row
    × ((length row ≡ limit) ⊎ ((pre ≡ []) × (length row + n ≡ limit)))

one-le-pow : (n : ℕ) → 1 ≤ 2 ^ n
one-le-pow zero = omega arith
one-le-pow (suc n) = grind (arith, one-le-pow n)

delay_bounds :
    (opts : Options) (n : ℕ)
    → (delay opts n ≤ 2 * max opts.reconnect_delay 60) × (opts.reconnect_delay ≤ delay opts n)
unfolding delay
delay_bounds opts n =
    let grows : opts.reconnect_delay * 1 ≤ opts.reconnect_delay * 2 ^ n =
      grind (arith, one-le-pow n) in
    omega arith

listed :
    (P : ℕ → Type 0) (full last : Bool) (d : ℕ) (rest : List ℕ × LoopEnd)
    → P d
    → All P rest.0
    → All P
        (if◌then◌else◌ {A = List ℕ × LoopEnd} last
          ([], stopped)
          (if full then ([], aborted) else (d ∷ rest.0, rest.1))).0
listed P true true d rest p ps = tt
listed P false true d rest p ps = tt
listed P true false d rest p ps = tt
listed P false false d rest p ps = (p, ps)

-- Every delay of the reference client is at least half of `reconnect_delay` and at most the larger
-- of `reconnect_delay` and 60 seconds; it is counted in half seconds.
pub reconnect_delays :
    (opts : Options) (n : ℕ) (es : List RunEnd)
    → All
        (λ d. (d ≤ 2 * max opts.reconnect_delay 60) × (opts.reconnect_delay ≤ d))
        (reconnect opts n es).0
unfolding reconnect
reconnect_delays opts n [] = tt
reconnect_delays opts n (e ∷ es) =
    listed (λ d. (d ≤ 2 * max opts.reconnect_delay 60) × (opts.reconnect_delay ≤ d))
      (leb opts.max_consecutive_errors (next_errors n e)) opts.no_reconnect
      (delay opts (next_errors n e)) (reconnect opts (next_errors n e) es)
      (delay_bounds opts (next_errors n e)) (reconnect_delays opts (next_errors n e) es)
