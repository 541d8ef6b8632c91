-- ===== src/Regex.antt =====
-- worker/parsing.py: the compiled patterns, and `re.finditer`, `fullmatch` and `search`. A matcher
-- tries its pattern at the front of a text, and returns the groups with the text behind the match.
-- No pattern backtracks: a digit is no `>`, white space is no `<`, a label holds no `<`, and the
-- run of blocks ends its pattern, so the first way to match is the only one.
pub mod Blocks
pub mod BoxText
pub mod Untagged
pub mod Walk
pub mod RunText
pub mod Scan
use locate_anything_setup.Prelude.{
  ℕ, zero, suc, ◌+◌, ◌-◌, ◌*◌, Bool, true, false, Option, none, some, List, [], ◌∷◌, ◌==◌, length,
  take, if◌then◌else◌,
}
use locate_anything_setup.Prelude.Options.{◌>>=◌}
use locate_anything_setup.Text.{Text, codes, digit, after, lstrip}

abbrev pub Matcher : Type 0 → Type 0
Matcher A = Text → Option (A × Text)

-- The match object: `m.start()`, `m.end()` and the groups.
pub record Match (A : Type 0) : Type 0 where
  pub start : ℕ
  pub stop : ℕ
  pub groups : A

abbrev pub box_open : Text
box_open = codes "<box>"

abbrev pub box_close : Text
box_close = codes "</box>"

abbrev pub ref_open : Text
ref_open = codes "<ref>"

abbrev pub ref_close : Text
ref_close = codes "</ref>"

-- `\d+` and `int` of it.
unfoldable pub digits : ℕ → Text → ℕ × Text
digits n [] = (n, [])
digits n (c ∷ t) = elim (digit c) [ none ↦ (n, c ∷ t) | some d ↦ digits (n * 10 + d) t ]

unfoldable pub number : Matcher ℕ
unfolding digits
number [] = none
number (c ∷ t) = elim (digit c) [ none ↦ none | some d ↦ some (digits d t) ]

-- `<(\d+)>`
unfoldable pub coord : Matcher ℕ
coord t = do
  inner ← after (b'<' ∷ []) t
  (n, behind) ← number inner
  rest ← after (b'>' ∷ []) behind
  some (n, rest)

abbrev pub Corners : Type 0
Corners = ℕ × ℕ × ℕ × ℕ

-- _BOX_RE
unfoldable pub box_re : Matcher Corners
box_re t = do
  t0 ← after box_open t
  (x1, t1) ← coord t0
  (y1, t2) ← coord t1
  (x2, t3) ← coord t2
  (y2, t4) ← coord t3
  rest ← after box_close t4
  some ((x1, y1, x2, y2), rest)

-- _POINT_RE
unfoldable pub point_re : Matcher (ℕ × ℕ)
point_re t = do
  t0 ← after box_open t
  (x, t1) ← coord t0
  (y, t2) ← coord t1
  rest ← after box_close t2
  some ((x, y), rest)

-- _NONE_RE
unfoldable pub none_re : Matcher (Unit {0})
none_re t = do
  t0 ← after box_open t
  rest ← elim (after (codes "None") t0) [
    | some t1 ↦ after box_close t1
    | none ↦ (do t1 ← after (codes "none") t0; after box_close t1)
  ]
  some (tt, rest)

-- `.*?</box>` under DOTALL: what lies behind the first `</box>`.
unfoldable pub after_close : Text → Option Text
after_close [] = none
after_close (c ∷ t) = elim (after box_close (c ∷ t)) [
  | some rest ↦ some rest
  | none ↦ after_close t
]

-- `<box>.*?</box>`
unfoldable pub span : Text → Option Text
span t = after box_open t >>= after_close

-- _ANY_BOX_RE; the group is the whole match.
unfoldable pub any_box_re : Matcher Text
unfolding span
any_box_re t = do rest ← span t; some (take (length t - length rest) t, rest)

-- `\s*<box>.*?</box>`
unfoldable pub block : Text → Option Text
unfolding span
block t = span (lstrip t)

-- What `(?:\s*<box>.*?</box>)*` leaves. A block is not empty, so the length of the text is enough
-- fuel (`Regex.Blocks`).
unfoldable pub blocks : ℕ → Text → Text
blocks zero t = t
blocks (suc fuel) t = elim (block t) [ some rest ↦ blocks fuel rest | none ↦ t ]

-- `[^<]*?` in front of a `<`
unfoldable pub label_span : Text → Text × Text
label_span [] = ([], [])
label_span (c ∷ t) = let (l, r) = label_span t in if c == b'<' then ([], c ∷ t) else (c ∷ l, r)

-- The groups of a ref-run, and `m.start("boxes") - m.start()`.
pub record Run : Type 0 where
  pub label : Text
  pub boxes : Text
  pub offset : ℕ

-- _REF_RUN_RE
unfoldable pub ref_run_re : Matcher Run
unfolding label_span blocks
ref_run_re t = do
  t0 ← after ref_open t
  let s = label_span t0
  t1 ← after ref_close s.1
  t2 ← block t1
  let rest = blocks (length t2) t2
  some (
    record {
      label = s.0;
      boxes = take (length t1 - length rest) t1;
      offset = length t - length t1;
    },
    rest,
  )

module _ {A : Type 0} (m : Matcher A) where
  -- `re.finditer`: leftmost matches, each behind the end of the last. `skip` characters are still
  -- inside the last match, and `pos` is the place of the text in the whole.
  unfoldable pub find_from : ℕ → ℕ → Text → List (Match A)
  find_from skip pos [] = []
  find_from (suc skip) pos (c ∷ t) = find_from skip (pos + 1) t
  find_from zero pos (c ∷ t) = elim (m (c ∷ t)) [
    | none ↦ find_from zero (pos + 1) t
    | some (g, rest) ↦
        (let n = length (c ∷ t) - length rest in
          record { start = pos; stop = pos + n; groups = g } ∷ find_from (n - 1) (pos + 1) t)
  ]

  unfoldable pub finditer : Text → List (Match A)
  unfolding find_from
  finditer t = find_from 0 0 t

  -- `re.fullmatch(t) is not None`
  unfoldable pub fullmatch : Text → Bool
  fullmatch t = elim (m t) [ none ↦ false | some (_, rest) ↦ (elim rest [ [] ↦ true | _ ↦ false ]) ]

  -- `re.search(t) is not None`
  unfoldable pub search_for : Text → Bool
  search_for [] = false
  search_for (c ∷ t) = elim (m (c ∷ t)) [ some _ ↦ true | none ↦ search_for t ]
