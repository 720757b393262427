-- ===== src/Base/Numerals.antt =====
-- Python's `str` and `int` between natural numbers and their decimal digits.
use Prim.Native.Nat.{ℕ, zero, suc, ◌+◌, ◌*◌, ◌-◌, ◌/◌, ◌%◌, ◌≤◌, ◌<◌}
use mathlib.Core.Path.{◌≡◌, refl}
use mathlib.Core.Bool.{Bool, true, false, ◌&&◌}
use mathlib.Core.Option.{Option, none, some}
use mathlib.Core.List.{[], ◌∷◌, ◌++◌, append-nil}
use native.Mathlib.Omega.{arith}
use log_sump.Base.Tests.{if◌then◌else◌, ltb, leb}
use log_sump.Base.Lists.{All}
use log_sump.Base.Int.{ℤ, pos, neg_part}
use log_sump.Base.Text.{Text, truthy, is_space}
use log_sump.Base.Words.{IsWord}

-- str(n): the digits of n before `rest`, from the last to the first. One round of fuel writes one
-- digit, and n + 1 rounds are more than n has digits.
show_digits : ℕ → ℕ → Text → Text
show_digits zero n rest = rest
show_digits (suc fuel) n rest =
    let longer = show_digits fuel (n / 10) ((b'0' + n % 10) ∷ rest) in
    if ltb n 10 then (b'0' + n % 10) ∷ rest else longer

unfoldable pub show_nat : ℕ → Text
unfolding show_digits
show_nat n = show_digits (suc n) n []

-- The number at the front of a text, after `acc`, and what follows it.
abbrev pub read_nat : ℕ → Text → ℕ × Text
read_nat acc [] = (acc, [])
read_nat acc (c ∷ s) =
    let further = read_nat (acc * 10 + (c - b'0')) s in
    if leb b'0' c && leb c b'9' then further else (acc, c ∷ s)

read-show_digits :
    (fuel n : ℕ) (rest : Text) → n < fuel → read_nat 0 (show_digits fuel n rest) ≡ read_nat n rest
unfolding show_digits
read-show_digits zero n rest h = absurd (omega arith)
read-show_digits (suc fuel) n rest h =
    ground (arith, read-show_digits fuel (n / 10) ((b'0' + n % 10) ∷ rest))

show_digits-append :
    (fuel n : ℕ) (rest more : Text)
    → show_digits fuel n rest ++ more ≡ show_digits fuel n (rest ++ more)
unfolding show_digits
show_digits-append zero n rest more = refl
show_digits-append (suc fuel) n rest more =
    ground (arith, show_digits-append fuel (n / 10) ((b'0' + n % 10) ∷ rest) more)

pub read-show_nat : (n : ℕ) (rest : Text) → read_nat 0 (show_nat n ++ rest) ≡ read_nat n rest
unfolding show_nat
read-show_nat n rest =
    rw (show_digits-append (suc n) n [] rest) (read-show_digits (suc n) n rest (omega arith))

-- Every character of a rendered number is ASCII.
show_digits-ascii :
    (fuel n : ℕ) (rest : Text)
    → All (λ c. c < 128) rest
    → All (λ c. c < 128) (show_digits fuel n rest)
unfolding show_digits
show_digits-ascii zero n rest h = h
show_digits-ascii (suc fuel) n rest h =
    ground (arith, show_digits-ascii fuel (n / 10) ((b'0' + n % 10) ∷ rest))

pub show_nat-ascii : (n : ℕ) → All (λ c. c < 128) (show_nat n)
unfolding show_nat
show_nat-ascii n = show_digits-ascii (suc n) n [] tt

abbrev pub StartsWithDigit : Text → Type 0
StartsWithDigit [] = ⊥
StartsWithDigit (c ∷ s) = b'0' ≤ c

show_digits-StartsWithDigit :
    (fuel n : ℕ) (rest : Text) → StartsWithDigit rest → StartsWithDigit (show_digits fuel n rest)
unfolding show_digits
show_digits-StartsWithDigit zero n rest h = h
show_digits-StartsWithDigit (suc fuel) n rest h =
    ground (arith, show_digits-StartsWithDigit fuel (n / 10) ((b'0' + n % 10) ∷ rest))

pub show_nat-StartsWithDigit : (n : ℕ) → StartsWithDigit (show_nat n)
unfolding show_nat
show_nat-StartsWithDigit n =
    ground (arith, show_digits-StartsWithDigit n (n / 10) ((b'0' + n % 10) ∷ []))

abbrev pub is_numeral : ℕ → Bool
is_numeral c = leb b'0' c && leb c b'9'

show_digits-numerals :
    (fuel n : ℕ) (rest : Text)
    → All (λ c. is_numeral c ≡ true) rest
    → All (λ c. is_numeral c ≡ true) (show_digits fuel n rest)
unfolding show_digits
show_digits-numerals zero n rest h = h
show_digits-numerals (suc fuel) n rest h =
    ground (arith, show_digits-numerals fuel (n / 10) ((b'0' + n % 10) ∷ rest))

pub show_nat-numerals : (n : ℕ) → All (λ c. is_numeral c ≡ true) (show_nat n)
unfolding show_nat
show_nat-numerals n = show_digits-numerals (suc n) n [] tt

not_spaces : (s : Text) → All (λ c. is_numeral c ≡ true) s → All (λ c. is_space c ≡ false) s
not_spaces [] h = tt
not_spaces (c ∷ s) (h, hs) = (ground (arith, h), not_spaces s hs)

numerals-IsWord : (s : Text) → StartsWithDigit s → All (λ c. is_numeral c ≡ true) s → IsWord s
numerals-IsWord [] d h = absurd d
numerals-IsWord (c ∷ s) d (h, hs) = (ground (arith, h), not_spaces s hs)

-- A rendered number is one word.
pub show_nat-IsWord : (n : ℕ) → IsWord (show_nat n)
show_nat-IsWord n = numerals-IsWord (show_nat n) (show_nat-StartsWithDigit n) (show_nat-numerals n)

-- int(s), `none` where it raises ValueError, and s.isdigit(), by the tables of Unicode.
pub record Ints : Type 0 where
  pub int_of : Text → Option ℤ
  pub is_digits : Text → Bool
  pub int_show : (n : ℕ) → int_of (show_nat n) ≡ some (pos n)
  pub digits_show : (n : ℕ) → is_digits (show_nat n) ≡ true
  pub digits_natural : (s : Text) (x : ℤ) → is_digits s ≡ true → int_of s ≡ some x → neg_part x ≡ 0

-- On ASCII digits alone.
abbrev pub all_numerals : Text → Bool
all_numerals [] = true
all_numerals (c ∷ s) = is_numeral c && all_numerals s

abbrev pub ascii_digits : Text → Bool
ascii_digits s = truthy s && all_numerals s

abbrev pub ascii_int : Text → Option ℤ
ascii_int s = if ascii_digits s then some (pos (read_nat 0 s).0) else none

numerals-ascii_digits :
    (s : Text) → StartsWithDigit s → All (λ c. is_numeral c ≡ true) s → ascii_digits s ≡ true
numerals-ascii_digits [] d h = absurd d
numerals-ascii_digits (c ∷ []) d h = ground (arith, h)
numerals-ascii_digits (c ∷ e ∷ s) d (h, hs) = ground (arith, h, numerals-ascii_digits (e ∷ s), hs)

pub ascii_digits-show_nat : (n : ℕ) → ascii_digits (show_nat n) ≡ true
ascii_digits-show_nat n =
    numerals-ascii_digits (show_nat n) (show_nat-StartsWithDigit n) (show_nat-numerals n)

pub ascii_int-show_nat : (n : ℕ) → ascii_int (show_nat n) ≡ some (pos n)
ascii_int-show_nat n =
    rw (ascii_digits-show_nat n) (rw (← append-nil (show_nat n)) (rw (read-show_nat n []) refl))

pub ascii_int-natural :
    (s : Text) (x : ℤ) → ascii_digits s ≡ true → ascii_int s ≡ some x → neg_part x ≡ 0
ascii_int-natural s x d h = ground (arith, d, h)

abbrev pub ascii_ints : Ints
ascii_ints = record {
  int_of = ascii_int;
  is_digits = ascii_digits;
  int_show = ascii_int-show_nat;
  digits_show = ascii_digits-show_nat;
  digits_natural = ascii_int-natural;
}
