-- ===== src/Text.antt =====
-- Text as a list of code points, and the functions of Rust's `str` that rust/src uses. A position
-- that `find` returns is only used to cut the text there, so code points serve for bytes.
pub mod Laws
use Prim.Native.Char.{code}
use Prim.Native.String.{String}
use amaru_wear.Prelude.{
  ℕ, zero, suc, ◌+◌, ◌-◌, ◌*◌, ◌^◌, ◌<◌, ◌≡◌, Bool, true, false, ◌&&◌, Option, none, some, List, [],
  ◌∷◌, ◌++◌, map, ◌==◌, ltb, leb, if◌then◌else◌, All,
}
use amaru_wear.Bytes.{same, starts_with}

abbrev pub Text : Type 0
Text = List ℕ

abbrev pub codes : String → Text
codes String.[] = []
codes (String.◌∷◌ c s) = code c ∷ codes s

abbrev pub is_digit : ℕ → Bool
is_digit c = leb b'0' c && leb c b'9'

abbrev pub ascii_lower : ℕ → ℕ
ascii_lower c = if leb b'A' c && leb c b'Z' then c + 32 else c

-- The Unicode tables of the standard library.
pub record Unicode : Type 0 where
  pub to_lowercase : Text → Text
  pub is_numeric : ℕ → Bool

-- Within ASCII they are the familiar ones.
pub record IsUnicode (U : Unicode) : Type 0 where
  pub lower_ascii : (t : Text) → All (λ c. c < 128) t → U.to_lowercase t ≡ map ascii_lower t
  pub numeric_ascii : (c : ℕ) → c < 128 → U.is_numeric c ≡ is_digit c

-- `haystack.find(needle)`
unfoldable pub find : Text → Text → Option ℕ
find needle [] = if starts_with needle [] then some 0 else none
find needle (c ∷ t) =
    let rest = find needle t in
    if starts_with needle (c ∷ t) then some 0 else elim rest [ none ↦ none | some i ↦ some (suc i) ]

unfoldable pub contains : Text → Text → Bool
unfolding find
contains needle t = elim (find needle t) [ none ↦ false | some i ↦ true ]

-- `t.find(|c| test(c))`
unfoldable pub position : (ℕ → Bool) → Text → Option ℕ
position test [] = none
position test (c ∷ t) =
    let rest = position test t in
    if test c then some 0 else elim rest [ none ↦ none | some i ↦ some (suc i) ]

-- The first part of `t.split(sep)`, and the parts after it.
unfoldable pub split_once : ℕ → Text → Text × List Text
split_once sep [] = ([], [])
split_once sep (c ∷ t) =
    let (part, parts) = split_once sep t in
    if c == sep then ([], part ∷ parts) else (c ∷ part, parts)

unfoldable pub split : ℕ → Text → List Text
unfolding split_once
split sep t = let (part, parts) = split_once sep t in part ∷ parts

abbrev pub u64_limit : ℕ
u64_limit = 2 ^ 64

unfoldable pub parse_digits : ℕ → Text → Option ℕ
parse_digits acc [] = some acc
parse_digits acc (c ∷ t) =
    let acc' = acc * 10 + (c - b'0') in
    let rest = parse_digits acc' t in if is_digit c && ltb acc' u64_limit then rest else none

-- `t.parse::<u64>()`: digits, with a `+` before them if it is not alone.
unfoldable pub parse_u64 : Text → Option ℕ
unfolding parse_digits
parse_u64 [] = none
parse_u64 (c ∷ []) = parse_digits 0 (c ∷ [])
parse_u64 (c ∷ d ∷ t) = if c == b'+' then parse_digits 0 (d ∷ t) else parse_digits 0 (c ∷ d ∷ t)
