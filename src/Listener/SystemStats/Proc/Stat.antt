-- ===== src/Listener/SystemStats/Proc/Stat.antt =====
-- The first line of /proc/stat, and what
-- packages/log-sump-listener/src/log_sump_listener/system_stats.py reads from it.
use log_sump.Base.{ℕ, ◌+◌, ◌≡◌, refl, ap, ◌∙◌, some, List, [], ◌∷◌, ◌++◌, map, filterb, drop}
use log_sump.Base.Int.{pos, ◌+ℤ◌, pos-+ℤ}
use log_sump.Base.Text.{Text, codes}
use log_sump.Base.Words.{
  split_words, split_words-space, split_words-word, spaced, split_words-spaced,
}
use log_sump.Base.Numerals.{Ints, show_nat}
use log_sump.Base.Errors.{ok, ◌>>=◌}
use log_sump.Listener.SystemStats.Proc.{sum, ints_of, total_idle, cpu_of_lines}
use log_sump.Listener.SystemStats.Proc.NetDev.{show-words}

-- The times since boot, the first five of which have a name.
pub record CpuTimes : Type 0 where
  pub user : ℕ
  pub nice : ℕ
  pub system : ℕ
  pub idle : ℕ
  pub iowait : ℕ
  pub more : List ℕ

abbrev pub times_of : CpuTimes → List ℕ
times_of t = t.user ∷ t.nice ∷ t.system ∷ t.idle ∷ t.iowait ∷ t.more

abbrev pub cpu_row : CpuTimes → Text
cpu_row t = codes "cpu" ++ (b' ' ∷ b' ' ∷ spaced (map show_nat (times_of t)))

abbrev pub total : List ℕ → ℕ
total [] = 0
total (n ∷ ns) = n + total ns

words-cpu_row : (t : CpuTimes) → split_words (cpu_row t) ≡ codes "cpu" ∷ map show_nat (times_of t)
words-cpu_row t =
    split_words-word (codes "cpu") b' ' (b' ' ∷ spaced (map show_nat (times_of t)))
      (refl, (refl, (refl, tt))) refl
    ∙ ap (λ ws. codes "cpu" ∷ ws)
        (split_words-space b' ' (spaced (map show_nat (times_of t))) refl
          ∙ split_words-spaced (map show_nat (times_of t)) (show-words (times_of t)))

sum-pos : (ns : List ℕ) → sum (map pos ns) ≡ pos (total ns)
sum-pos [] = refl
sum-pos (n ∷ ns) = ap (λ x. pos n +ℤ x) (sum-pos ns) ∙ pos-+ℤ n (total ns)

module _ (ints : Ints) where
  digits-show : (ns : List ℕ) → filterb ints.is_digits (map show_nat ns) ≡ map show_nat ns
  digits-show [] = refl
  digits-show (n ∷ ns) = rw (ints.digits_show n) (ap (λ l. show_nat n ∷ l) (digits-show ns))

  ints_of-show : (ns : List ℕ) → ints_of ints (map show_nat ns) ≡ ok (map pos ns)
  ints_of-show [] = refl
  ints_of-show (n ∷ ns) = rw (ints.int_show n) (rw (ints_of-show ns) refl)

  read_back :
      (words : List Text) (ns : List ℕ)
      → words ≡ codes "cpu" ∷ map show_nat ns
      → (ints_of ints (filterb ints.is_digits (drop 1 words)) >>= λ values. ok (total_idle values))
        ≡ ok (total_idle (map pos ns))
  read_back words ns h =
      ap
        (λ ws.
          ints_of ints (filterb ints.is_digits (drop 1 ws)) >>= λ values. ok (total_idle values))
        h
      ∙ ap (λ ws. ints_of ints ws >>= λ values. ok (total_idle values)) (digits-show ns)
      ∙ ap (λ r. r >>= λ values. ok (total_idle values)) (ints_of-show ns)

  -- From the line of all CPUs, as the kernel writes it, the total of all its times is read, and as the
  -- idle time the sum of idle and iowait.
  pub cpu_of_lines-cpu_row :
      (t : CpuTimes) (lines : List Text)
      → cpu_of_lines ints (cpu_row t ∷ lines)
        ≡ ok (some (pos (total (times_of t)), pos (t.idle + t.iowait)))
  unfolding cpu_of_lines
  cpu_of_lines-cpu_row t lines =
      read_back (split_words (cpu_row t)) (times_of t) (words-cpu_row t)
      ∙ ap (λ p. ok (some p))
          (ap (λ x. (x, pos t.idle +ℤ pos t.iowait)) (sum-pos (times_of t))
            ∙ ap (λ y. (pos (total (times_of t)), y)) (pos-+ℤ t.idle t.iowait))
