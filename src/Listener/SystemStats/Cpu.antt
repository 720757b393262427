-- ===== src/Listener/SystemStats/Cpu.antt =====
-- The CPU percentage between two samples of /proc/stat, in
-- packages/log-sump-listener/src/log_sump_listener/system_stats.py.
use log_sump.Base.{◌≡◌, Bool, true, false, Option, none, some, if◌then◌else◌}
use log_sump.Base.Int.{ℤ, pos, ◌-ℤ◌, leb_ℤ, neg_part}
use log_sump.Base.Errors.{Result, ok, ◌>>=◌}
use log_sump.Common.Schema.{Float}

-- The bits of 0.0, 1.0 and 100.0.
abbrev pub zero_float : Float
zero_float = 0

abbrev pub one_float : Float
one_float = 4607182418800017408

abbrev pub hundred_float : Float
hundred_float = 4636737291354636288

-- Python's arithmetic on floats. `of_int` and `true_div` of two ints raise OverflowError where the
-- result is too large, and a division by zero raises ZeroDivisionError. The laws hold of IEEE 754
-- doubles, whose operations are monotone.
pub record Floats : Type 0 where
  pub add : Float → Float → Float
  pub sub : Float → Float → Float
  pub mul : Float → Float → Float
  pub div : Float → Float → Result Float
  pub of_int : ℤ → Result Float
  pub true_div : ℤ → ℤ → Result Float
  pub lt : Float → Float → Bool
  pub lt_asym : (a b : Float) → lt a b ≡ true → lt b a ≡ false
  pub true_div_natural :
      (a b : ℤ) (x : Float)
      → neg_part a ≡ 0
      → neg_part b ≡ 0
      → true_div a b ≡ ok x
      → lt x zero_float ≡ false
  pub sub_le : (x : Float) → lt x zero_float ≡ false → lt one_float (sub one_float x) ≡ false
  pub mul_le : (x : Float) → lt one_float x ≡ false → lt hundred_float (mul hundred_float x) ≡ false
  pub zero_lt_hundred : lt zero_float hundred_float ≡ true

pub record CpuSample : Type 0 where
  pub at : Float
  pub total : ℤ
  pub idle : ℤ

module _ (fl : Floats) where
  -- max(0.0, x)
  abbrev pub max_zero : Float → Float
  max_zero x = if fl.lt zero_float x then x else zero_float

  unfoldable pub cpu_percent : CpuSample → CpuSample → Result (Option Float)
  cpu_percent prev curr =
      let d_total = curr.total -ℤ prev.total in
      let d_idle = curr.idle -ℤ prev.idle in
      if leb_ℤ d_total (pos 0)
      then ok none
      else fl.true_div d_idle d_total >>= λ ratio.
          ok (some (max_zero (fl.mul hundred_float (fl.sub one_float ratio))))
