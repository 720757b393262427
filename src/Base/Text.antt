-- ===== src/Base/Text.antt =====
-- Python's `str`, as the list of its code points.
use Prim.Native.Nat.{ℕ, ◌+◌, ◌-◌, ◌<◌}
use Prim.Native.Char.{code}
use Prim.Native.String.{String}
use mathlib.Core.Path.{◌≡◌, refl}
use mathlib.Core.Bool.{Bool, true, false, not, ◌&&◌, ◌||◌}
use mathlib.Core.Logic.{ite}
use mathlib.Core.List.{List, [], ◌∷◌, map}
use native.Mathlib.Decide.{ℕ_discrete}
use native.Mathlib.Omega.{arith}
use log_sump.Base.Tests.{if◌then◌else◌, leb, nat_eq}
use log_sump.Base.Lists.{All}

abbrev pub Text : Type 0
Text = List ℕ

abbrev pub Bytes : Type 0
Bytes = List ℕ

-- A value of type `bytes | str`.
pub data Str : Type 0 where
  bytes : Bytes → Str
  text : Text → Str

-- The code points of a literal.
abbrev pub codes : String → Text
codes String.[] = []
codes (String.◌∷◌ c s) = code c ∷ codes s

unfoldable pub text_discrete : Discrete Text
unfolding ℕ_discrete
text_discrete = hlevel ℕ_discrete

-- a == b on texts. A split on the decision yields the equation or its negation.
infix 50 ◌==◌
abbrev pub ◌==◌ : Text → Text → Bool
a == b = ite (text_discrete a b) true false

-- a in xs, for a list, a tuple, a set or a frozenset of texts
abbrev pub contains : List Text → Text → Bool
contains [] a = false
contains (x ∷ xs) a = a == x || contains xs a

pub ==_refl : (a : Text) → (a == a) ≡ true
==_refl a = ground arith

-- The truth value of a text.
abbrev pub truthy : Text → Bool
truthy [] = false
truthy (c ∷ s) = true

-- ch.isspace()
abbrev pub is_space : ℕ → Bool
is_space c =
    leb 9 c && leb c 13
    || leb 28 c && leb c 32
    || nat_eq c 133
    || nat_eq c 160
    || nat_eq c 5760
    || leb 8192 c && leb c 8202
    || nat_eq c 8232
    || nat_eq c 8233
    || nat_eq c 8239
    || nat_eq c 8287
    || nat_eq c 12288

-- s.lstrip()
unfoldable pub lstrip : Text → Text
lstrip [] = []
lstrip (c ∷ s) = if is_space c then lstrip s else c ∷ s

-- s.rstrip()
unfoldable pub rstrip : Text → Text
rstrip [] = []
rstrip (c ∷ s) = let rest = rstrip s in if is_space c && not (truthy rest) then [] else c ∷ rest

-- s.strip()
unfoldable pub strip : Text → Text
unfolding lstrip rstrip
strip s = rstrip (lstrip s)

-- prefix of s: s.startswith(prefix)
abbrev pub starts_with : Text → Text → Bool
starts_with s [] = true
starts_with [] (p ∷ prefix) = false
starts_with (c ∷ s) (p ∷ prefix) = nat_eq c p && starts_with s prefix

-- s.endswith(suffix)
unfoldable pub ends_with : Text → Text → Bool
ends_with [] suffix = [] == suffix
ends_with (c ∷ s) suffix = (c ∷ s) == suffix || ends_with s suffix

-- needle in s
unfoldable pub has_text : Text → Text → Bool
has_text needle [] = starts_with [] needle
has_text needle (c ∷ s) = starts_with (c ∷ s) needle || has_text needle s

-- str.upper and str.lower, by the tables of Unicode: on ASCII they map each letter.
abbrev pub ascii_upper : ℕ → ℕ
ascii_upper c = if leb b'a' c && leb c b'z' then c - 32 else c

abbrev pub ascii_lower : ℕ → ℕ
ascii_lower c = if leb b'A' c && leb c b'Z' then c + 32 else c

pub record Unicode : Type 0 where
  pub upper : Text → Text
  pub lower : Text → Text
  pub upper_ascii : (s : Text) → All (λ c. c < 128) s → upper s ≡ map ascii_upper s
  pub lower_ascii : (s : Text) → All (λ c. c < 128) s → lower s ≡ map ascii_lower s

abbrev pub ascii_only : Unicode
ascii_only = record {
  upper = map ascii_upper;
  lower = map ascii_lower;
  upper_ascii = λ s h. refl;
  lower_ascii = λ s h. refl;
}
