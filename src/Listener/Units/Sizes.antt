-- ===== src/Listener/Units/Sizes.antt =====
-- Sizes as Docker prints them, and parse_bytes of
-- packages/log-sump-listener/src/log_sump_listener/units.py.
use log_sump.Base.{
  ℕ, ◌^◌, ◌≡◌, ◌≢◌, Bool, Option, none, refl, ap, ◌∙◌, true, false, some, [], ◌∷◌, ◌++◌, All, arith,
}
use log_sump.Base.Text.{
  Text, strip, lstrip, rstrip, is_space, truthy, Unicode, codes, text_discrete,
}
use log_sump.Base.Dict.{Dict, lookup, lookup-nil}
use log_sump.Base.Errors.{Result, ok, ◌>>=◌}
use log_sump.Base.Int.{ℤ}
use log_sump.Listener.Units.{
  Numbers, is_letter, all_letters, match_unit, match_number, is_numeral, size_units, sized,
  of_match, parse_bytes,
}

pub data Prefix : Type 0 where
  kilo mega giga tera peta : Prefix

-- Bytes, or a multiple of them, binary or decimal.
pub data SizeUnit : Type 0 where
  byte : SizeUnit
  multiple : Bool → Prefix → SizeUnit

abbrev letter : Prefix → ℕ
letter kilo = b'K'
letter mega = b'M'
letter giga = b'G'
letter tera = b'T'
letter peta = b'P'

abbrev power : Prefix → ℕ
power kilo = 1
power mega = 2
power giga = 3
power tera = 4
power peta = 5

abbrev pub spelled : SizeUnit → Text
spelled byte = codes "B"
spelled (multiple false p) = letter p ∷ codes "B"
spelled (multiple true p) = letter p ∷ codes "IB"

abbrev pub bytes_in : SizeUnit → ℕ
bytes_in byte = 1
bytes_in (multiple false p) = 1000 ^ power p
bytes_in (multiple true p) = 1024 ^ power p

skips :
    (name key : Text) (n : ℕ) (d : Dict ℕ) → name ≢ key → lookup name ((key, n) ∷ d) ≡ lookup name d
unfolding lookup
skips name key n d h = ground (arith, h)

rstrip-append : (a b : Text) → rstrip b ≡ b → truthy b ≡ true → rstrip (a ++ b) ≡ a ++ b
unfolding rstrip
rstrip-append [] b h t = h
rstrip-append (c ∷ []) b h t = ground (arith, h, t)
rstrip-append (c ∷ d ∷ a) b h t = ground (arith, rstrip-append (d ∷ a) b h t)

truthy-append : (a b : Text) → truthy b ≡ true → truthy (a ++ b) ≡ true
truthy-append [] b t = t
truthy-append (c ∷ a) b t = refl

letter-not_space : (c : ℕ) → is_letter c ≡ true → is_space c ≡ false
letter-not_space c h = ground (arith, h)

rstrip-letters : (s : Text) → all_letters s ≡ true → rstrip s ≡ s
unfolding rstrip
rstrip-letters [] h = refl
rstrip-letters (c ∷ s) h = ground (arith, h, letter-not_space c, rstrip-letters s)

match_unit-gap :
    (gap unit : Text)
    → All (λ c. is_space c ≡ true) gap
    → all_letters unit ≡ true
    → truthy unit ≡ true
    → match_unit (gap ++ unit) ≡ some unit
unfolding match_unit
match_unit-gap [] [] h l t = cc
match_unit-gap [] (c ∷ unit) h l t = ground (arith, l, letter-not_space c)
match_unit-gap (c ∷ gap) unit (h, hs) l t = ground (arith, h, match_unit-gap gap unit hs l t)

module _ (u : Unicode) (num : Numbers) where
  letter-not_numeral : (c : ℕ) → is_letter c ≡ true → is_numeral u num c ≡ false
  letter-not_numeral c h = ground (arith, h, num.ascii_digit c)

  space-not_numeral : (c : ℕ) → is_space c ≡ true → is_numeral u num c ≡ false
  space-not_numeral c h = ground (arith, h, num.digit_not_space c)

  -- The number ends where the gap or the unit begins.
  match_number-gap :
      (gap unit : Text)
      → All (λ c. is_space c ≡ true) gap
      → all_letters unit ≡ true
      → match_number u num (gap ++ unit) ≡ ([], gap ++ unit)
  unfolding match_number
  match_number-gap [] [] h l = refl
  match_number-gap [] (c ∷ unit) h l = ground (arith, l, letter-not_numeral c)
  match_number-gap (c ∷ gap) unit (h, hs) l = ground (arith, h, space-not_numeral c)

  match_number-append :
      (value rest : Text)
      → All (λ c. is_numeral u num c ≡ true) value
      → match_number u num rest ≡ ([], rest)
      → match_number u num (value ++ rest) ≡ (value, rest)
  unfolding match_number
  match_number-append [] rest h e = e
  match_number-append (c ∷ value) rest (h, hs) e =
      ground (arith, h, match_number-append value rest hs e)

  strip-sized :
      (c : ℕ) (value gap unit : Text)
      → is_numeral u num c ≡ true
      → all_letters unit ≡ true
      → truthy unit ≡ true
      → strip (c ∷ value ++ (gap ++ unit)) ≡ c ∷ value ++ (gap ++ unit)
  unfolding strip lstrip
  strip-sized c value gap unit h l t =
      let ends =
        rstrip-append (c ∷ value) (gap ++ unit) (rstrip-append gap unit (rstrip-letters unit l) t)
          (truthy-append gap unit t) in
      let begins : is_space c ≡ false = ground (arith, h, num.digit_not_space c) in
      ground (arith, begins, ends)

  -- A number of bytes, rounded: whatever float() or round() raises is raised.
  abbrev pub times : Text → ℕ → Result (Option ℤ)
  times value n = num.float_of value >>= λ x. num.round (num.scale x n) >>= λ k. ok (some k)

  -- What a text means whose unit has a name: the number times the unit's bytes; none where it is the
  -- name of no unit.
  pub data Means (value name : Text) : Result (Option ℤ) → Type 0 where
    a_unit :
        (unit : SizeUnit) → name ≡ spelled unit → Means value name (times value (bytes_in unit))
    no_unit : ((unit : SizeUnit) → name ≢ spelled unit) → Means value name (ok none)

  known_lem :
      (value : Text) (unit : SizeUnit)
      → sized u num value (lookup (spelled unit) size_units) ≡ times value (bytes_in unit)
  unfolding lookup text_discrete
  known_lem value byte = refl
  known_lem value (multiple false kilo) = refl
  known_lem value (multiple true kilo) = refl
  known_lem value (multiple false mega) = refl
  known_lem value (multiple true mega) = refl
  known_lem value (multiple false giga) = refl
  known_lem value (multiple true giga) = refl
  known_lem value (multiple false tera) = refl
  known_lem value (multiple true tera) = refl
  known_lem value (multiple false peta) = refl
  known_lem value (multiple true peta) = refl

  unknown_lem :
      (name : Text) → ((unit : SizeUnit) → name ≢ spelled unit) → lookup name size_units ≡ none
  unknown_lem name h =
      skips name _ _ _ (h byte)
      ∙ skips name _ _ _ (h (multiple false kilo))
      ∙ skips name _ _ _ (h (multiple true kilo))
      ∙ skips name _ _ _ (h (multiple false mega))
      ∙ skips name _ _ _ (h (multiple true mega))
      ∙ skips name _ _ _ (h (multiple false giga))
      ∙ skips name _ _ _ (h (multiple true giga))
      ∙ skips name _ _ _ (h (multiple false tera))
      ∙ skips name _ _ _ (h (multiple true tera))
      ∙ skips name _ _ _ (h (multiple false peta))
      ∙ skips name _ _ _ (h (multiple true peta))
      ∙ lookup-nil name

  means_lem :
      (value name : Text) {r : Result (Option ℤ)}
      → Means value name r
      → sized u num value (lookup name size_units) ≡ r
  means_lem value name (a_unit unit e) =
      ap (λ n. sized u num value (lookup n size_units)) e ∙ known_lem value unit
  means_lem value name (no_unit h) = ap (sized u num value) (unknown_lem name h)

  -- A text of numerals, some space or none, and letters reads as the unit that the letters name in any
  -- case, B, or K, M, G, T or P and B for a power of 1000, with an I between for a power of 1024, times
  -- what float() makes of the numerals, rounded; as none if they name no unit; and whatever float() or
  -- round() raises is raised.
  pub parse_bytes-sized :
      (c : ℕ) (value gap unit : Text) {r : Result (Option ℤ)}
      → All (λ d. is_numeral u num d ≡ true) (c ∷ value)
      → All (λ d. is_space d ≡ true) gap
      → all_letters unit ≡ true
      → truthy unit ≡ true
      → Means (c ∷ value) (u.upper unit) r
      → parse_bytes u num (c ∷ value ++ (gap ++ unit)) ≡ r
  unfolding parse_bytes
  parse_bytes-sized c value gap unit (h, hs) g l t means =
      ap (λ s. (let (v, rest) = match_number u num s in of_match u num v (match_unit rest)))
        (strip-sized c value gap unit h l t)
      ∙ ap (λ p. of_match u num p.0 (match_unit p.1))
          (match_number-append (c ∷ value) (gap ++ unit) (h, hs) (match_number-gap gap unit g l))
      ∙ ap (λ o. of_match u num (c ∷ value) o) (match_unit-gap gap unit g l t)
      ∙ means_lem (c ∷ value) (u.upper unit) means
