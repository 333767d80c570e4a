-- ===== src/Prelude/Text.antt =====
-- Python's `str` where the code cuts it up: a list of code points, of ASCII text.
use Prim.Native.Nat.{ℕ, ◌+◌, ◌-◌, ◌*◌}
use Prim.Native.Char.{code}
use Prim.Native.String.{String}
use mathlib.Core.Bool.{Bool, true, false, ◌||◌, ◌&&◌}
use mathlib.Core.Option.{Option, none, some}
use mathlib.Core.List.{List, [], ◌∷◌}
use parallel_reduction_bench.Prelude.Tests.{leb, eqb, if◌then◌else◌}
use parallel_reduction_bench.Prelude.Lists.{is_empty}
use parallel_reduction_bench.Prelude.Int.{ℤ, pos, sub_ℕ}

abbrev pub is_space : ℕ → Bool
is_space c = (leb 9 c && leb c 13) || (leb 28 c && leb c 32)

abbrev pub is_digit : ℕ → Bool
is_digit c = leb b'0' c && leb c b'9'

unfoldable pub lstrip : List ℕ → List ℕ
lstrip [] = []
lstrip (c ∷ s) = let rest = lstrip s in if is_space c then rest else c ∷ s

unfoldable pub rstrip : List ℕ → List ℕ
rstrip [] = []
rstrip (c ∷ s) = let rest = rstrip s in if is_space c && is_empty rest then [] else c ∷ rest

abbrev pub strip : List ℕ → List ℕ
strip s = lstrip (rstrip s)

abbrev pub onto_first : ℕ → List (List ℕ) → List (List ℕ)
onto_first c [] = (c ∷ []) ∷ []
onto_first c (t ∷ ts) = (c ∷ t) ∷ ts

-- `s.split(separator)`, which has at least one part
unfoldable pub split : ℕ → List ℕ → List (List ℕ)
split separator [] = [] ∷ []
split separator (c ∷ s) =
    let rest = split separator s in if eqb c separator then [] ∷ rest else onto_first c rest

-- `s.split(separator, 1)`, where it has two parts
unfoldable pub split_once : ℕ → List ℕ → Option (List ℕ × List ℕ)
split_once separator [] = none
split_once separator (c ∷ s) =
    let rest = split_once separator s in
    if eqb c separator
    then some ([], s)
    else elim rest [ none ↦ none | some (before, after) ↦ some (c ∷ before, after) ]

-- One character of an `int`: a digit, or an underscore between two of them.
abbrev digit_step : Bool → ℕ → ℕ → Option (Bool × ℕ)
digit_step after_digit value c =
    if is_digit c
    then some (true, value * 10 + (c - b'0'))
    else if after_digit && eqb c b'_'
    then some (false, value)
    else none

unfoldable pub int_digits : Bool → ℕ → List ℕ → Option ℕ
int_digits after_digit value [] = if after_digit then some value else none
int_digits after_digit value (c ∷ s) = elim (digit_step after_digit value c) [
  | none ↦ none
  | some (digit, next) ↦ int_digits digit next s
]

unfoldable pub signed : List ℕ → Option ℤ
signed [] = none
signed (c ∷ s) =
    if eqb c b'-'
    then elim (int_digits false 0 s) [ none ↦ none | some n ↦ some (sub_ℕ 0 n) ]
    else elim (int_digits false 0 (if eqb c b'+' then s else c ∷ s)) [
      | none ↦ none
      | some n ↦ some (pos n)
    ]

-- `int(s)`, or nothing where it raises `ValueError`
abbrev pub int_of_codes : List ℕ → Option ℤ
int_of_codes s = signed (strip s)

-- texts in order, by their characters
unfoldable pub le_text : String → String → Bool
le_text String.[] t = true
le_text (String.◌∷◌ c s) String.[] = false
le_text (String.◌∷◌ c s) (String.◌∷◌ d t) =
    let rest = le_text s t in if eqb (code c) (code d) then rest else leb (code c) (code d)

-- a text with dashes for its underscores
unfoldable dashes : String → String
dashes String.[] = String.[]
dashes (String.◌∷◌ c s) = String.◌∷◌ (if eqb (code c) b'_' then "-" else c) (dashes s)

-- the flag of a name
unfoldable pub dashed_flag : String → String
unfolding dashes
dashed_flag name = String.◌∷◌ "-" (String.◌∷◌ "-" (dashes name))
