-- ===== src/Listener/SystemStats/Proc/MemInfo.antt =====
-- The rows of /proc/meminfo, and what
-- packages/log-sump-listener/src/log_sump_listener/system_stats.py reads from them.
use mathlib.Core.Option
use log_sump.Base.{
  ℕ, ◌*◌, ◌≡◌, refl, sym, ap, ◌∙◌, inl, inr, Bool, true, false, ◌&&◌, Bool-cases, Option, none,
  some, List, [], ◌∷◌, ◌++◌, map, append_assoc, All, foldl, if◌then◌else◌, arith,
}
use log_sump.Base.Int.{ℤ, pos, pos-*ℤ}
use log_sump.Base.Text.{Text, codes, ◌==◌, strip, ends_with}
use log_sump.Base.Words.{partition_at-append}
use log_sump.Base.Strip.{IsGap, strip-word, strip-words, strip-behind}
use log_sump.Base.Dict.{Dict, lookup, insert, lookup-insert, lookup-nil}
use log_sump.Base.Numerals.{Ints, show_nat, show_nat-IsWord, show_nat-numerals, is_numeral}
use log_sump.Listener.Units.{init}
use log_sump.Listener.SystemStats.Proc.{set_kib, meminfo_line, meminfo_of_lines}
use log_sump.Listener.SystemStats.Proc.NetDev.{NoColon}

-- A row: a number of KiB, or one without a unit.
pub record MemRow : Type 0 where
  pub name : Text
  pub gap : Text
  pub number : ℕ
  pub in_kib : Bool

abbrev pub amount : MemRow → Text
amount r = if r.in_kib then show_nat r.number ++ codes " kB" else show_nat r.number

abbrev pub mem_row : MemRow → Text
mem_row r = r.name ++ (b':' ∷ (r.gap ++ amount r))

abbrev pub IsMemRow : MemRow → Type 0
IsMemRow r = NoColon r.name × IsGap r.gap

-- The bytes of the last row with a name and a unit.
abbrev pub bytes_of : Text → List MemRow → Option ℕ
bytes_of key [] = none
bytes_of key (r ∷ rs) = elim (bytes_of key rs) [
  | none ↦ if r.in_kib && key == r.name then some (r.number * 1024) else none
  | some n ↦ some n
]

-- The total memory, and the available memory: the total, where no row gives it.
abbrev pub memory_of : List MemRow → Option (ℤ × ℤ)
memory_of rs = elim (bytes_of (codes "MemTotal") rs) [
  | none ↦ none
  | some total ↦ some (pos total, pos (Option.get_or (bytes_of (codes "MemAvailable") rs) total))
]

init-append : (s : Text) (c d : ℕ) (t : Text) → init (s ++ (c ∷ d ∷ t)) ≡ s ++ (c ∷ init (d ∷ t))
init-append [] c d t = refl
init-append (x ∷ []) c d t = refl
init-append (x ∷ y ∷ s) c d t = ap (λ r. x ∷ r) (init-append (y ∷ s) c d t)

ends_with_refl : (s suffix : Text) → ends_with (s ++ suffix) suffix ≡ true
unfolding ends_with
ends_with_refl [] [] = ground arith
ends_with_refl [] (c ∷ suffix) = ground arith
ends_with_refl (c ∷ s) suffix = ground (arith, ends_with_refl s suffix)

numerals-ends_with :
    (s : Text) → All (λ c. is_numeral c ≡ true) s → ends_with s (codes "kB") ≡ false
unfolding ends_with
numerals-ends_with [] h = ground arith
numerals-ends_with (c ∷ s) (h, hs) = ground (arith, h, numerals-ends_with s hs)

number-amount : (n : ℕ) → strip (init (init (show_nat n ++ codes " kB"))) ≡ show_nat n
number-amount n =
    ap (λ s. strip (init s)) (init-append (show_nat n) b' ' b'k' (b'B' ∷ []))
    ∙ ap strip (init-append (show_nat n) b' ' b'k' [])
    ∙ strip-behind (show_nat n) b' ' (show_nat-IsWord n) refl

module _ (ints : Ints) where
  -- What a row does to the values, by its key and by what stands, stripped, behind the colon.
  abbrev set_value : Dict ℤ → Text × Text → Dict ℤ
  set_value d (key, after) =
      if ends_with (strip after) (codes "kB")
      then set_kib key (ints.int_of (strip (init (init (strip after))))) d
      else d

  kib_lem :
      (key gap : Text) (n : ℕ) (d : Dict ℤ)
      → IsGap gap
      → set_value d (key, gap ++ (show_nat n ++ codes " kB")) ≡ insert key (pos (n * 1024)) d
  kib_lem key gap n d g =
      let stripped =
        strip-words gap (show_nat n) (codes " ") (codes "kB") g (show_nat-IsWord n)
          (refl, (refl, tt)) in
      let unit : ends_with (show_nat n ++ codes " kB") (codes "kB") ≡ true =
        ap (λ s. ends_with s (codes "kB"))
          (sym (append_assoc (show_nat n) (codes " ") (codes "kB")))
        ∙ ends_with_refl (show_nat n ++ codes " ") (codes "kB") in
      rw stripped (rw unit (rw (number-amount n) (rw (ints.int_show n) (rw (pos-*ℤ n 1024) refl))))

  plain_lem :
      (key gap : Text) (n : ℕ) (d : Dict ℤ) → IsGap gap → set_value d (key, gap ++ show_nat n) ≡ d
  plain_lem key gap n d g =
      rw (strip-word gap (show_nat n) g (show_nat-IsWord n))
        (rw (numerals-ends_with (show_nat n) (show_nat-numerals n)) refl)

  row_lem :
      (r : MemRow) (d : Dict ℤ)
      → IsMemRow r
      → meminfo_line ints d (mem_row r)
        ≡ (if r.in_kib then insert r.name (pos (r.number * 1024)) d else d)
  unfolding meminfo_line
  row_lem r d (n, g) =
      ap (λ o. set_value d (elim o [ none ↦ (mem_row r, []) | some p ↦ p ]))
        (partition_at-append b':' r.name (r.gap ++ amount r) n)
      ∙ elim (Bool-cases r.in_kib) [
        | inl k ↦ rw k (kib_lem r.name r.gap r.number d g)
        | inr k ↦ rw k (plain_lem r.name r.gap r.number d g)
      ]

  rows_lem :
      (rs : List MemRow) (d : Dict ℤ) (key : Text)
      → All IsMemRow rs
      → lookup key (foldl (meminfo_line ints) d (map mem_row rs))
        ≡ (elim (bytes_of key rs) [ none ↦ lookup key d | some n ↦ some (pos n) ])
  rows_lem [] d key h = refl
  rows_lem (r ∷ rs) d key (h, hs) =
      rows_lem rs (meminfo_line ints d (mem_row r)) key hs
      ∙ ground (
        arith,
        ap (lookup key) (row_lem r d h),
        lookup-insert r.name key (pos (r.number * 1024)) d,
      )

  -- Of the rows of /proc/meminfo the total and the available memory are read, in bytes.
  pub meminfo_of_lines-rows :
      (rs : List MemRow) → All IsMemRow rs → meminfo_of_lines ints (map mem_row rs) ≡ memory_of rs
  unfolding meminfo_of_lines
  meminfo_of_lines-rows rs h = ground (
    arith,
    rows_lem rs [] (codes "MemTotal") h,
    rows_lem rs [] (codes "MemAvailable") h,
    lookup-nil {V = ℤ} (codes "MemTotal"),
    lookup-nil {V = ℤ} (codes "MemAvailable"),
  )
