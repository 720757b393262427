-- ===== src/Listener/Units.antt =====
-- packages/log-sump-listener/src/log_sump_listener/units.py: sizes and percentages as Docker prints
-- them.
pub mod Sizes
mod Samples
use log_sump.Base.{
  ℕ, ◌*◌, ◌^◌, ◌≡◌, Bool, true, false, not, ◌&&◌, ◌||◌, Option, none, some, List, [], ◌∷◌,
  if◌then◌else◌, leb, nat_eq, last,
}
use log_sump.Base.Int.{ℤ}
use log_sump.Base.Text.{Text, codes, strip, is_space, truthy, Unicode}
use log_sump.Base.Words.{partition_at}
use log_sump.Base.Dict.{Dict, lookup}
use log_sump.Base.Errors.{Error, Result, ok, err, ◌>>=◌, is_value_error}
use log_sump.Common.Schema.{Float}

abbrev pub size_units : Dict ℕ
size_units =
    (codes "B", 1)
    ∷ (codes "KB", 1000)
    ∷ (codes "KIB", 1024)
    ∷ (codes "MB", 1000 ^ 2)
    ∷ (codes "MIB", 1024 ^ 2)
    ∷ (codes "GB", 1000 ^ 3)
    ∷ (codes "GIB", 1024 ^ 3)
    ∷ (codes "TB", 1000 ^ 4)
    ∷ (codes "TIB", 1024 ^ 4)
    ∷ (codes "PB", 1000 ^ 5)
    ∷ (codes "PIB", 1024 ^ 5)
    ∷ []

-- Python's floats, and \d: `float_of` is float() of a text, `scale` the product of a float and an int,
-- `round` raises OverflowError or ValueError where there is no int.
pub record Numbers : Type 0 where
  pub is_digit : ℕ → Bool
  pub ascii_digit : (c : ℕ) → leb c 127 ≡ true → is_digit c ≡ (leb b'0' c && leb c b'9')
  pub digit_not_space : (c : ℕ) → is_digit c ≡ true → is_space c ≡ false
  pub float_of : Text → Result Float
  pub scale : Float → ℕ → Float
  pub round : Float → Result ℤ

-- [A-Za-z]
abbrev pub is_letter : ℕ → Bool
is_letter c = leb b'A' c && leb c b'Z' || leb b'a' c && leb c b'z'

abbrev pub all_letters : Text → Bool
all_letters [] = true
all_letters (c ∷ s) = is_letter c && all_letters s

-- What follows the number: \s*([A-Za-z]+)$, as the unit. The text has been stripped, so that `$` is its
-- end.
unfoldable pub match_unit : Text → Option Text
match_unit [] = none
match_unit (c ∷ s) =
    let rest = match_unit s in
    if is_space c then rest else if is_letter c && all_letters s then some (c ∷ s) else none

module _ (u : Unicode) (num : Numbers) where
  -- [\d.]
  abbrev pub is_numeral : ℕ → Bool
  is_numeral c = num.is_digit c || nat_eq c b'.'

  -- [\d.]*, greedy, and what follows it; no numeral is a space or a letter, so that there is no other
  -- way to match.
  unfoldable pub match_number : Text → Text × Text
  match_number [] = ([], [])
  match_number (c ∷ s) =
      let (value, rest) = match_number s in if is_numeral c then (c ∷ value, rest) else ([], c ∷ s)

  abbrev sized : Text → Option ℕ → Result (Option ℤ)
  sized value_str none = ok none
  sized value_str (some multiplier) =
      num.float_of value_str >>= λ x. num.round (num.scale x multiplier) >>= λ n. ok (some n)

  abbrev of_match : Text → Option Text → Result (Option ℤ)
  of_match [] unit = ok none
  of_match (c ∷ value) none = ok none
  of_match (c ∷ value) (some unit) = sized (c ∷ value) (lookup (u.upper unit) size_units)

  unfoldable pub parse_bytes : Text → Result (Option ℤ)
  parse_bytes s =
      let (value_str, rest) = match_number (strip s) in of_match value_str (match_unit rest)

  unfoldable pub parse_pair_bytes : Text → Result (Option ℤ × Option ℤ)
  parse_pair_bytes s = elim (partition_at b'/' s) [
    | none ↦ ok (none, none)
    | some (left, right) ↦ parse_bytes left >>= λ a. parse_bytes right >>= λ b. ok (a, b)
  ]

-- text[:-1]
abbrev pub init : Text → Text
init [] = []
init (c ∷ []) = []
init (c ∷ d ∷ s) = c ∷ init (d ∷ s)

abbrev or_none : Result Float → Result (Option Float)
or_none (ok x) = ok (some x)
or_none (err e) = if is_value_error e then ok none else err e

abbrev percent_of : (Text → Result Float) → Text → Option ℕ → Result (Option Float)
percent_of float_of s none = ok none
percent_of float_of s (some c) = if nat_eq c b'%' then or_none (float_of (init s)) else ok none

unfoldable pub parse_percent : Numbers → Text → Result (Option Float)
parse_percent num s = percent_of num.float_of (strip s) (last (strip s))
