-- ===== src/Prelude/Text.antt =====
-- Texts as JavaScript compares them: `<` on strings is the lexicographic order of the UTF-16
-- code units, `+` and template literals are concatenation, `join` puts a separator between.
use Prim.Native.Nat.{ℕ, zero, suc, ◌+◌, ◌-◌, ◌/◌, ◌%◌, compare, Ordering}
use Prim.Native.Char.{code}
use Prim.Native.String
use Prim.Native.String.{String}
use mathlib.Core.Path.{◌≡◌, refl}
use mathlib.Core.Bool.{Bool, true, false, ◌&&◌, ◌||◌}
use mathlib.Core.List.{List, [], ◌∷◌}
use native.Mathlib.Omega.{arith}
use text.Mathlib.Text.{◌==◌}
use text.Mathlib.TextEquality.{eq_iff}
use volta_hackathon.Prelude.Tests.{ltb, leb, eqb, if◌then◌else◌}

-- A code point above U+FFFF is a surrogate pair.
abbrev pub code_units : String → List ℕ
code_units String.[] = []
code_units (String.◌∷◌ c s) =
    let rest = code_units s in
    if ltb (code c) 0x10000
    then code c ∷ rest
    else (0xd800 + (code c - 0x10000) / 0x400) ∷ (0xdc00 + (code c - 0x10000) % 0x400) ∷ rest

unfoldable pub units_lt : List ℕ → List ℕ → Bool
units_lt xs [] = false
units_lt [] (y ∷ ys) = true
units_lt (x ∷ xs) (y ∷ ys) = elim (compare x y) [
  | Ordering.lt ↦ true
  | Ordering.eq ↦ units_lt xs ys
  | Ordering.gt ↦ false
]

-- `a < b`
unfoldable pub text_lt : String → String → Bool
unfolding units_lt
text_lt a b = units_lt (code_units a) (code_units b)

infixr 65 ◌<>◌
abbrev pub ◌<>◌ : String → String → String
a <> b = String.◌++◌ a b

-- `xs.join(sep)`
unfoldable pub join : String → List String → String
join sep [] = ""
join sep (x ∷ []) = x
join sep (x ∷ y ∷ xs) = x <> sep <> join sep (y ∷ xs)

-- `xs.includes(x)`
abbrev pub includes : List String → String → Bool
includes [] x = false
includes (y ∷ ys) x = y == x || includes ys x

-- `\s`: the white space and the line ends of ECMAScript.
abbrev pub is_space : ℕ → Bool
is_space c =
    (leb 0x09 c && leb c 0x0d)
    || eqb c 0x20
    || eqb c 0xa0
    || eqb c 0x1680
    || (leb 0x2000 c && leb c 0x200a)
    || eqb c 0x2028
    || eqb c 0x2029
    || eqb c 0x202f
    || eqb c 0x205f
    || eqb c 0x3000
    || eqb c 0xfeff

trim_start : String → String
trim_start String.[] = ""
trim_start (String.◌∷◌ c s) =
    let rest = trim_start s in if is_space (code c) then rest else String.◌∷◌ c s

trim_end : String → String
trim_end String.[] = ""
trim_end (String.◌∷◌ c s) = elim (trim_end s) [
  | String.[] ↦ if is_space (code c) then "" else String.◌∷◌ c String.[]
  | String.◌∷◌ d t ↦ String.◌∷◌ c (String.◌∷◌ d t)
]

-- `s.trim()`
unfoldable pub trim : String → String
unfolding trim_start trim_end
trim s = trim_end (trim_start s)

-- `s.slice(0, n)`, which counts code units; a surrogate pair that would be cut is left out.
unfoldable pub slice_units : ℕ → String → String
slice_units n String.[] = ""
slice_units n (String.◌∷◌ c s) =
    let width = if ltb (code c) 0x10000 then 1 else 2 in
    let rest = slice_units (n - width) s in if ltb n width then "" else String.◌∷◌ c rest

-- `s.replaceAll("_", " ")`
unfoldable pub underscores_to_spaces : String → String
underscores_to_spaces String.[] = ""
underscores_to_spaces (String.◌∷◌ c s) =
    let rest = underscores_to_spaces s in
    if eqb (code c) b'_' then String.◌∷◌ " " rest else String.◌∷◌ c rest

digit : ℕ → String
digit n =
    if eqb n 0
    then "0"
    else if eqb n 1
    then "1"
    else if eqb n 2
    then "2"
    else if eqb n 3
    then "3"
    else if eqb n 4
    then "4"
    else if eqb n 5
    then "5"
    else if eqb n 6
    then "6"
    else if eqb n 7
    then "7"
    else if eqb n 8
    then "8"
    else "9"

decimal_from : ℕ → ℕ → String → String
decimal_from zero n rest = rest
decimal_from (suc fuel) n rest =
    let shown = digit (n % 10) <> rest in
    let more = decimal_from fuel (n / 10) shown in if ltb n 10 then shown else more

-- A number in a template literal. A number has fewer digits than its successor has units.
unfoldable pub decimal : ℕ → String
unfolding digit decimal_from
decimal n = decimal_from (suc n) n ""

decimal_8900 : decimal 8900 ≡ "8900"
unfolding decimal
decimal_8900 = refl

-- `[...new Set(xs)]`: the first occurrence of each text.
unfoldable pub distinct_from : List String → List String → List String
distinct_from seen [] = []
distinct_from seen (x ∷ xs) =
    let rest = distinct_from (x ∷ seen) xs in
    let skipped = distinct_from seen xs in if includes seen x then skipped else x ∷ rest

abbrev pub distinct : List String → List String
distinct xs = distinct_from [] xs

pub eq_sym : (a b : String) → (a == b) ≡ (b == a)
eq_sym a b = ground (arith, eq_iff a b, eq_iff b a)
