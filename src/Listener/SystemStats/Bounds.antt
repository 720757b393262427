-- ===== src/Listener/SystemStats/Bounds.antt =====
-- The range of the CPU figures of packages/log-sump-listener/src/log_sump_listener/system_stats.py.
use log_sump.Base.{
  ◌+◌, ◌≤◌, ◌≡◌, refl, inl, inr, true, false, Bool-cases, Option, none, some, List, [], ◌∷◌,
  filterb, drop, get_elem?, All, All-filterb, arith,
}
use log_sump.Base.Int.{ℤ, pos, neg_part, pos_part, ◌+ℤ◌, ◌-ℤ◌, ◌≤ℤ◌, leb_ℤ}
use log_sump.Base.Text.{Text, codes, starts_with}
use log_sump.Base.Lines.{splitlines}
use log_sump.Base.Words.{split_words}
use log_sump.Base.Numerals.{Ints}
use log_sump.Base.Errors.{Result, ok, err, ◌>>=◌, or_raise, value_error, OnOk, OnOk-bind}
use log_sump.Common.Schema.{Float}
use log_sump.Listener.SystemStats.Proc.{
  sum, ints_of, total_idle, cpu_line, cpu_of_lines, parse_cpu_total_idle,
}
use log_sump.Listener.SystemStats.Cpu.{
  Floats, CpuSample, zero_float, one_float, hundred_float, max_zero, cpu_percent,
}

abbrev IsNatural : ℤ → Type 0
IsNatural x = neg_part x ≡ 0

-- A sum of natural numbers is one, and not below its parts.
abbrev IsSumOf : ℤ → ℤ → ℤ → Type 0
IsSumOf a b x = IsNatural x × (pos_part x ≡ pos_part a + pos_part b)

+ℤ-IsSumOf : (a b : ℤ) → IsNatural a → IsNatural b → IsSumOf a b (a +ℤ b)
unfolding ◌+ℤ◌
+ℤ-IsSumOf a b h k = ground arith

sum-IsNatural : (xs : List ℤ) → All IsNatural xs → IsNatural (sum xs)
sum-IsNatural [] h = refl
sum-IsNatural (x ∷ xs) (h, hs) = (+ℤ-IsSumOf x (sum xs) h (sum-IsNatural xs hs)).0

sum-IsSumOf : (x : ℤ) (xs : List ℤ) → All IsNatural (x ∷ xs) → IsSumOf x (sum xs) (sum (x ∷ xs))
sum-IsSumOf x xs (h, hs) = +ℤ-IsSumOf x (sum xs) h (sum-IsNatural xs hs)

-- The idle time is no more than the total.
abbrev pub IsShare : Option (ℤ × ℤ) → Type 0
IsShare none = Unit
IsShare (some (total, idle)) = IsNatural idle × (idle ≤ℤ total)

abbrev iowait_of : List ℤ → ℤ
iowait_of rest = elim (get_elem? rest 0) [ none ↦ pos 0 | some iowait ↦ iowait ]

iowait-IsNatural :
    (rest : List ℤ)
    → All IsNatural rest
    → IsNatural (iowait_of rest) × (pos_part (iowait_of rest) ≤ pos_part (sum rest))
iowait-IsNatural [] h = (refl, omega arith)
iowait-IsNatural (e ∷ rest) h = (h.0, omega (arith, (sum-IsSumOf e rest h).1))

total_idle-IsShare : (xs : List ℤ) → All IsNatural xs → IsShare (total_idle xs)
total_idle-IsShare [] h = tt
total_idle-IsShare (a ∷ []) h = tt
total_idle-IsShare (a ∷ b ∷ []) h = tt
total_idle-IsShare (a ∷ b ∷ c ∷ []) h = tt
total_idle-IsShare (a ∷ b ∷ c ∷ d ∷ rest) h =
    let (w, le) = iowait-IsNatural rest h.1.1.1.1 in
    let (i, i_eq) = +ℤ-IsSumOf d (iowait_of rest) h.1.1.1.0 w in
    let (t3, e3) = sum-IsSumOf d rest h.1.1.1 in
    let (t2, e2) = sum-IsSumOf c (d ∷ rest) h.1.1 in
    let (t1, e1) = sum-IsSumOf b (c ∷ d ∷ rest) h.1 in
    let (t0, e0) = sum-IsSumOf a (b ∷ c ∷ d ∷ rest) h in
    (i, omega (arith, i_eq, e0, e1, e2, e3, le, i, t0))

module _ (ints : Ints) where
  int_IsNatural :
      (w : Text) (o : Option ℤ)
      → ints.is_digits w ≡ true
      → ints.int_of w ≡ o
      → OnOk IsNatural (or_raise o value_error)
  int_IsNatural w none h e = tt
  int_IsNatural w (some x) h e = ints.digits_natural w x h e

  ints_of-IsNatural :
      (words : List Text)
      → All (λ w. ints.is_digits w ≡ true) words
      → OnOk (All IsNatural) (ints_of ints words)
  ints_of-IsNatural [] h = tt
  ints_of-IsNatural (w ∷ words) (h, hs) =
      OnOk-bind IsNatural (All IsNatural) (or_raise (ints.int_of w) value_error) _
        (int_IsNatural w (ints.int_of w) h refl)
        (λ x n.
          OnOk-bind (All IsNatural) (All IsNatural) (ints_of ints words) _
            (ints_of-IsNatural words hs) (λ xs ns. (n, ns)))

  cpu_line-IsShare : (line : Text) → OnOk IsShare (cpu_line ints line)
  cpu_line-IsShare line =
      let words = drop 1 (split_words line) in
      OnOk-bind (All IsNatural) IsShare (ints_of ints (filterb ints.is_digits words)) _
        (ints_of-IsNatural _ (All-filterb ints.is_digits words)) total_idle-IsShare

  cpu_of_lines-IsShare : (lines : List Text) → OnOk IsShare (cpu_of_lines ints lines)
  unfolding cpu_of_lines
  cpu_of_lines-IsShare [] = tt
  cpu_of_lines-IsShare (line ∷ lines) = elim (Bool-cases (starts_with line (codes "cpu "))) [
    | inl h ↦ rw h (cpu_line-IsShare line)
    | inr h ↦ rw h (cpu_of_lines-IsShare lines)
  ]

  -- Of whatever text /proc/stat holds, the idle time that is read, if any is, is not negative, and no
  -- more than the total.
  pub parse_cpu_total_idle-IsShare :
      (stat_text : Text) → OnOk IsShare (parse_cpu_total_idle ints stat_text)
  unfolding parse_cpu_total_idle
  parse_cpu_total_idle-IsShare stat_text = cpu_of_lines-IsShare (splitlines stat_text)

module _ (fl : Floats) where
  -- What a percentage between two samples may be: none when the total time has not advanced; an
  -- exception when it has and the division raises it; otherwise a float that is not below 0.0, and not
  -- above 100.0 where the idle time has not gone back.
  abbrev pub IsPercentage : CpuSample → CpuSample → Result (Option Float) → Type 0
  IsPercentage prev curr (ok none) = curr.total ≤ℤ prev.total
  IsPercentage prev curr (ok (some x)) =
      (prev.total +ℤ pos 1 ≤ℤ curr.total)
      × (fl.lt x zero_float ≡ false)
      × (prev.idle ≤ℤ curr.idle → fl.lt hundred_float x ≡ false)
  IsPercentage prev curr (err e) =
      (prev.total +ℤ pos 1 ≤ℤ curr.total)
      × (fl.true_div (curr.idle -ℤ prev.idle) (curr.total -ℤ prev.total) ≡ err e)

  max_zero_low : (x : Float) → fl.lt (max_zero fl x) zero_float ≡ false
  max_zero_low x = ground (arith, fl.lt_asym zero_float x, fl.lt_asym zero_float zero_float)

  max_zero_high :
      (x : Float) → fl.lt hundred_float x ≡ false → fl.lt hundred_float (max_zero fl x) ≡ false
  max_zero_high x h = ground (arith, h, fl.lt_asym zero_float hundred_float fl.zero_lt_hundred)

  -ℤ-pos_parts :
      (a b : ℤ)
      → (a ≤ℤ b → neg_part (b -ℤ a) ≡ 0)
        × (leb_ℤ (b -ℤ a) (pos 0) ≡ true → b ≤ℤ a)
        × (leb_ℤ (b -ℤ a) (pos 0) ≡ false → (a +ℤ pos 1 ≤ℤ b) × (neg_part (b -ℤ a) ≡ 0))
  unfolding ◌-ℤ◌ ◌+ℤ◌
  -ℤ-pos_parts a b = (λ h. ground arith, λ h. ground arith, λ h. (ground arith, ground arith))

  ratio_IsPercentage :
      (prev curr : CpuSample) (ratio : Result Float)
      → leb_ℤ (curr.total -ℤ prev.total) (pos 0) ≡ false
      → fl.true_div (curr.idle -ℤ prev.idle) (curr.total -ℤ prev.total) ≡ ratio
      → IsPercentage prev curr (
          ratio >>= λ ratio.
          ok (some (max_zero fl (fl.mul hundred_float (fl.sub one_float ratio)))))
  ratio_IsPercentage prev curr (err e) h r = (((-ℤ-pos_parts prev.total curr.total).2 h).0, r)
  ratio_IsPercentage prev curr (ok x) h r =
      let (later, natural) = (-ℤ-pos_parts prev.total curr.total).2 h in
      (
        later,
        max_zero_low _,
        λ idle. max_zero_high _ (
            fl.mul_le _ (
              fl.sub_le x
                (fl.true_div_natural _ _ x ((-ℤ-pos_parts prev.idle curr.idle).0 idle) natural r))),
      )

  -- The percentage between two samples is none exactly when the total time has not advanced; otherwise
  -- it is not below 0.0, and where the idle time has not gone back it is not above 100.0; and only the
  -- division of the two times can raise.
  pub cpu_percent-IsPercentage :
      (prev curr : CpuSample) → IsPercentage prev curr (cpu_percent fl prev curr)
  unfolding cpu_percent
  cpu_percent-IsPercentage prev curr =
      elim (Bool-cases (leb_ℤ (curr.total -ℤ prev.total) (pos 0))) [
        | inl h ↦ rw h ((-ℤ-pos_parts prev.total curr.total).1 h)
        | inr h ↦ rw h (ratio_IsPercentage prev curr _ h refl)
      ]
