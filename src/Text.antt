-- ===== src/Text.antt =====
-- Python text as its code points, with the operations of `str` and the character classes of `re`
-- that the worker uses: `strip`, `startswith`, `endswith`, slicing, `\s`, `\d` and `int`.
pub mod Strip
use Prim.Native.Char.{code}
use locate_anything_setup.Prelude.{
  ℕ, ◌+◌, ◌-◌, String, Bool, true, false, ◌&&◌, ◌||◌, Option, none, some, List, [], ◌∷◌, leb, ltb,
  ◌==◌, if◌then◌else◌,
}

abbrev pub Text : Type 0
Text = List ℕ

-- `String` has its own `[]` and `∷`.
abbrev pub codes : String → Text
codes String.[] = []
codes (String.◌∷◌ c s) = code c ∷ codes s

-- `str.isspace` and `\s` of a `str` pattern: the white space of Unicode.
unfoldable pub is_space : ℕ → Bool
is_space c =
    if ltb c 128
    then (leb 9 c && leb c 13) || (leb 28 c && leb c 32)
    else c == 133
      || c == 160
      || c == 5760
      || (leb 8192 c && leb c 8202)
      || c == 8232
      || c == 8233
      || c == 8239
      || c == 8287
      || c == 12288

-- The zeros of the decimal digits of Unicode 15 beyond ASCII; each is followed by its nine others.
abbrev wide_zeros : List ℕ
wide_zeros =
    1632 ∷ 1776 ∷ 1984 ∷ 2406 ∷ 2534 ∷ 2662 ∷ 2790 ∷ 2918 ∷ 3046 ∷ 3174 ∷ 3302 ∷ 3430 ∷ 3558 ∷ 3664
    ∷ 3792 ∷ 3872 ∷ 4160 ∷ 4240 ∷ 6112 ∷ 6160 ∷ 6470 ∷ 6608 ∷ 6784 ∷ 6800 ∷ 6992 ∷ 7088 ∷ 7232
    ∷ 7248 ∷ 42528 ∷ 43216 ∷ 43264 ∷ 43472 ∷ 43504 ∷ 43600 ∷ 44016 ∷ 65296 ∷ 66720 ∷ 68912 ∷ 69734
    ∷ 69872 ∷ 69942 ∷ 70096 ∷ 70384 ∷ 70736 ∷ 70864 ∷ 71248 ∷ 71360 ∷ 71472 ∷ 71904 ∷ 72016 ∷ 72784
    ∷ 73040 ∷ 73120 ∷ 73552 ∷ 92768 ∷ 92864 ∷ 93008 ∷ 120782 ∷ 120792 ∷ 120802 ∷ 120812 ∷ 120822
    ∷ 123200 ∷ 123632 ∷ 124144 ∷ 125264 ∷ 130032 ∷ []

digit_from : List ℕ → ℕ → Option ℕ
digit_from [] c = none
digit_from (z ∷ zs) c = if leb z c && ltb c (z + 10) then some (c - z) else digit_from zs c

-- `\d` with the value that `int` gives the digit.
unfoldable pub digit : ℕ → Option ℕ
unfolding digit_from
digit c =
    if ltb c 128
    then (if leb b'0' c && leb c b'9' then some (c - b'0') else none)
    else digit_from wide_zeros c

-- The rest of a text behind a literal: `startswith` with what follows.
unfoldable pub after : Text → Text → Option Text
after [] t = some t
after (l ∷ ls) [] = none
after (l ∷ ls) (c ∷ t) = if l == c then after ls t else none

unfoldable pub starts_with : Text → Text → Bool
unfolding after
starts_with p t = elim (after p t) [ some _ ↦ true | none ↦ false ]

unfoldable pub lstrip : Text → Text
lstrip [] = []
lstrip (c ∷ t) = if is_space c then lstrip t else c ∷ t

unfoldable pub rstrip : Text → Text
rstrip [] = []
rstrip (c ∷ t) = elim (rstrip t) [ [] ↦ if is_space c then [] else c ∷ [] | d ∷ r ↦ c ∷ (d ∷ r) ]

unfoldable pub strip : Text → Text
unfolding lstrip rstrip
strip t = rstrip (lstrip t)

-- `not t`, the test for the empty text.
abbrev pub is_empty {ℓ} : {A : Type ℓ} → List A → Bool
is_empty [] = true
is_empty (c ∷ t) = false

-- `t.endswith(".")` and `t[:-1]`.
unfoldable pub ends_with_char : ℕ → Text → Bool
ends_with_char d [] = false
ends_with_char d (c ∷ t) = elim t [ [] ↦ c == d | _ ∷ _ ↦ ends_with_char d t ]

unfoldable pub init : Text → Text
init [] = []
init (c ∷ t) = elim t [ [] ↦ [] | _ ∷ _ ↦ c ∷ init t ]

unfoldable pub equal : Text → Text → Bool
equal [] [] = true
equal (a ∷ s) (b ∷ t) = a == b && equal s t
equal _ _ = false

-- `t.endswith(s)`: some suffix of the text is the literal.
unfoldable pub ends_with : Text → Text → Bool
unfolding equal
ends_with s [] = is_empty s
ends_with s (c ∷ t) = equal s (c ∷ t) || ends_with s t
