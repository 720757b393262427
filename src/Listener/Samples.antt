-- ===== src/Listener/Samples.antt =====
-- What the tests of packages/log-sump-listener share: values written as texts, and numbers and floats
-- for them.
use log_sump.Base.{ℕ, ◌+◌, ◌-◌, ◌*◌, refl, Bool, ◌&&◌, [], ◌∷◌, leb, ltb, arith}
use log_sump.Base.Int.{pos, pos_part}
use log_sump.Base.Text.{Text, codes}
use log_sump.Base.Errors.{Result, ok, err, value_error}
use log_sump.Common.Schema.{Float, Json, null, boolean, int, float, str, arr, obj}
use log_sump.Listener.Units.{Numbers}
use log_sump.Listener.SystemStats.Cpu.{Floats, one_float}

abbrev pub show_json : Json → Text
show_json (str s) = s
show_json null = codes "None"
show_json (boolean b) = codes "True"
show_json (int n) = codes "0"
show_json (float x) = codes "0.0"
show_json (arr items) = codes "[]"
show_json (obj fields) = codes "{}"

-- Reads one digit, as a number of bits.
abbrev pub float_of : Text → Result Float
float_of [] = err value_error
float_of (c ∷ []) = ok (c - b'0')
float_of (c ∷ d ∷ s) = err value_error

abbrev pub is_digit : ℕ → Bool
is_digit c = leb b'0' c && leb c b'9'

abbrev pub numbers : Numbers
numbers = record {
  is_digit = is_digit;
  ascii_digit = λ c h. refl;
  digit_not_space = λ c h. ground (arith, h);
  float_of = float_of;
  scale = λ x n. x * n;
  round = λ x. ok (pos x);
}

-- Counts of bits in place of floats: what is taken from 1.0 is taken from 100.0.
abbrev pub floats : Floats
floats = record {
  add = λ a b. a + b;
  sub = λ a b. a - b;
  mul = λ a b. a - (one_float - b);
  div = λ a b. ok a;
  of_int = λ n. ok (pos_part n);
  true_div = λ a b. ok (pos_part a);
  lt = ltb;
  lt_asym = λ a b h. ground (arith, h);
  true_div_natural = λ a b x h k e. ground arith;
  sub_le = λ x h. ground arith;
  mul_le = λ x h. ground arith;
  zero_lt_hundred = refl;
}
