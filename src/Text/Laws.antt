-- ===== src/Text/Laws.antt =====
-- Digits parse to their value, and a text with a separator splits at it.
use amaru_wear.Prelude.{
  ℕ, ◌+◌, ◌-◌, ◌*◌, ◌<◌, ◌≤◌, ◌≡◌, ◌≢◌, refl, Bool, true, false, some, [], ◌∷◌, ◌++◌, arith, ◌==◌,
  All, length,
}
use amaru_wear.Bytes.{starts_with}
use amaru_wear.Bytes.Order.{starts_with-append}
use amaru_wear.Text.{Text, is_digit, find, position, parse_digits, parse_u64, split_once, u64_limit}

-- The number that digits stand for, after those read so far.
unfoldable pub value : ℕ → Text → ℕ
value acc [] = acc
value acc (c ∷ t) = value (acc * 10 + (c - b'0')) t

abbrev pub IsDigits : Text → Type 0
IsDigits = All (λ c. is_digit c ≡ true)

le-value : (acc : ℕ) (t : Text) → acc ≤ value acc t
unfolding value
le-value acc [] = omega arith
le-value acc (c ∷ t) = omega (arith, le-value (acc * 10 + (c - b'0')) t)

pub parse_digits_lem :
    (acc : ℕ) (t : Text)
    → IsDigits t
    → value acc t < u64_limit
    → parse_digits acc t ≡ some (value acc t)
unfolding parse_digits value
parse_digits_lem acc [] h lt = refl
parse_digits_lem acc (c ∷ t) h lt =
    ground (
      arith,
      h.0,
      le-value (acc * 10 + (c - b'0')) t,
      parse_digits_lem (acc * 10 + (c - b'0')) t h.1,
    )

-- A number in digits parses to its value, if that fits 64 bits.
pub parse_u64_lem :
    (t : Text) → t ≢ [] → IsDigits t → value 0 t < u64_limit → parse_u64 t ≡ some (value 0 t)
unfolding parse_u64
parse_u64_lem [] ne h lt = absurd (ne refl)
parse_u64_lem (c ∷ []) ne h lt = parse_digits_lem 0 (c ∷ []) h lt
parse_u64_lem (c ∷ d ∷ t) ne h lt = ground (arith, h.0, parse_digits_lem 0 (c ∷ d ∷ t) h lt)

abbrev pub Without : ℕ → Text → Type 0
Without sep = All (λ c. (c == sep) ≡ false)

-- The text before the first separator is the first part.
pub split_once-append :
    (sep : ℕ) (a b : Text)
    → Without sep a
    → split_once sep (a ++ sep ∷ b) ≡ (a, (split_once sep b).0 ∷ (split_once sep b).1)
unfolding split_once
split_once-append sep [] b h = ground arith
split_once-append sep (c ∷ a) b h = ground (arith, h.0, split_once-append sep a b h.1)

pub split_once_whole : (sep : ℕ) (a : Text) → Without sep a → split_once sep a ≡ (a, [])
unfolding split_once
split_once_whole sep [] h = refl
split_once_whole sep (c ∷ a) h = ground (arith, h.0, split_once_whole sep a h.1)

pub digits-Without : (t : Text) → IsDigits t → Without b'.' t
digits-Without [] h = tt
digits-Without (c ∷ t) h = (ground (arith, h.0), digits-Without t h.1)

-- No match of the needle begins within the first text, with the rest behind it.
abbrev pub NoMatch : Text → Text → Text → Type 0
NoMatch needle [] rest = Unit
NoMatch needle (c ∷ t) rest = (starts_with needle (c ∷ (t ++ rest)) ≡ false) × NoMatch needle t rest

find_here : (needle rest : Text) → find needle (needle ++ rest) ≡ some 0
unfolding find starts_with
find_here [] [] = refl
find_here [] (c ∷ rest) = refl
find_here (a ∷ needle) rest = ground (arith, starts_with-append needle rest)

-- `find` gives the place of the first match.
pub find_first :
    (needle before rest : Text)
    → NoMatch needle before (needle ++ rest)
    → find needle (before ++ (needle ++ rest)) ≡ some (length before)
unfolding find
find_first needle [] rest h = find_here needle rest
find_first needle (c ∷ t) rest h = ground (arith, h.0, find_first needle t rest h.1)

pub find_quote :
    (q : ℕ) (t rest : Text) → Without q t → find (q ∷ []) (t ++ q ∷ rest) ≡ some (length t)
unfolding find starts_with
find_quote q [] rest h = ground arith
find_quote q (c ∷ t) rest h = ground (arith, h.0, find_quote q t rest h.1)

pub position_lem :
    (test : ℕ → Bool) (t : Text) (c : ℕ) (rest : Text)
    → All (λ a. test a ≡ false) t
    → test c ≡ true
    → position test (t ++ c ∷ rest) ≡ some (length t)
unfolding position
position_lem test [] c rest h e = rw e
position_lem test (a ∷ t) c rest h e = ground (arith, h.0, position_lem test t c rest h.1 e)
