-- ===== src/Listener/SystemStats/Proc.antt =====
-- The parsers of /proc/stat, /proc/meminfo, /proc/net/dev and /proc/diskstats in
-- packages/log-sump-listener/src/log_sump_listener/system_stats.py.
pub mod DiskStats
pub mod MemInfo
pub mod NetDev
pub mod Stat
use log_sump.Base.{
  ℕ, Bool, true, false, not, ◌||◌, Option, none, some, List, [], ◌∷◌, if◌then◌else◌, filterb, foldl,
  get_elem?, drop, length, ltb,
}
use log_sump.Base.Int.{ℤ, pos, ◌+ℤ◌, ◌*ℤ◌}
use log_sump.Base.Text.{Text, codes, ◌==◌, strip, truthy, starts_with, ends_with}
use log_sump.Base.Lines.{splitlines}
use log_sump.Base.Words.{split_words, partition_at, partition}
use log_sump.Base.Numerals.{Ints}
use log_sump.Base.Dict.{Dict, lookup, insert}
use log_sump.Base.Errors.{Result, ok, ◌>>=◌, or_raise, value_error}
use log_sump.Listener.Units.{init}
use log_sump.Listener.SystemStats.Devices.{is_partition, is_virtual_device}

abbrev pub sum : List ℤ → ℤ
sum [] = pos 0
sum (x ∷ xs) = x +ℤ sum xs

-- The total and the idle time, of values in the order of the file.
abbrev pub total_idle : List ℤ → Option (ℤ × ℤ)
total_idle (user ∷ nice ∷ system ∷ idle ∷ rest) = some (
  sum (user ∷ nice ∷ system ∷ idle ∷ rest),
  idle +ℤ (elim (get_elem? rest 0) [ none ↦ pos 0 | some iowait ↦ iowait ]),
)
total_idle _ = none

-- values[key] = n * 1024, where there is a number
abbrev set_kib : Text → Option ℤ → Dict ℤ → Dict ℤ
set_kib key none values = values
set_kib key (some n) values = insert key (n *ℤ pos 1024) values

abbrev pub total_available : Dict ℤ → Option (ℤ × ℤ)
total_available values = elim (lookup (codes "MemTotal") values) [
  | none ↦ none
  | some total ↦
      some (total, elim (lookup (codes "MemAvailable") values) [ none ↦ total | some x ↦ x ])
]

-- The two sums of a loop, and whether a line was found.
pub record Totals : Type 0 where
  pub first : ℤ
  pub second : ℤ
  pub found : Bool

abbrev pub no_totals : Totals
no_totals = record { first = pos 0; second = pos 0; found = false }

abbrev add_second : ℤ → Option ℤ → Totals → Totals
add_second a none t = record t { first = t.first +ℤ a }
add_second a (some b) t = record { first = t.first +ℤ a; second = t.second +ℤ b; found = true }

-- The two additions under try: the first stays when the second raises ValueError.
abbrev pub add_pair : Option ℤ → Option ℤ → Totals → Totals
add_pair none second t = t
add_pair (some a) second t = add_second a second t

abbrev pub found_totals : (ℤ → ℤ) → Totals → Option (ℤ × ℤ)
found_totals scale t = if t.found then some (scale t.first, scale t.second) else none

module _ (ints : Ints) where
  -- [int(p) for p in words]
  abbrev pub ints_of : List Text → Result (List ℤ)
  ints_of [] = ok []
  ints_of (p ∷ words) =
      or_raise (ints.int_of p) value_error >>= λ x. ints_of words >>= λ xs. ok (x ∷ xs)

  abbrev pub cpu_line : Text → Result (Option (ℤ × ℤ))
  cpu_line line = ints_of (filterb ints.is_digits (drop 1 (split_words line))) >>= λ values.
      ok (total_idle values)

  unfoldable pub cpu_of_lines : List Text → Result (Option (ℤ × ℤ))
  cpu_of_lines [] = ok none
  cpu_of_lines (line ∷ lines) =
      let rest = cpu_of_lines lines in
      if starts_with line (codes "cpu ") then cpu_line line else rest

  unfoldable pub parse_cpu_total_idle : Text → Result (Option (ℤ × ℤ))
  parse_cpu_total_idle stat_text = cpu_of_lines (splitlines stat_text)

  unfoldable pub meminfo_line : Dict ℤ → Text → Dict ℤ
  meminfo_line values line =
      let (key, after) = partition b':' line in
      let rest = strip after in
      if ends_with rest (codes "kB")
      then set_kib key (ints.int_of (strip (init (init rest)))) values
      else values

  unfoldable pub meminfo_of_lines : List Text → Option (ℤ × ℤ)
  meminfo_of_lines lines = total_available (foldl meminfo_line [] lines)

  unfoldable pub parse_meminfo : Text → Option (ℤ × ℤ)
  parse_meminfo meminfo_text = meminfo_of_lines (splitlines meminfo_text)

  -- Those of the words at two places, where these are there.
  abbrev pub add_fields : Option Text → Option Text → Totals → Totals
  add_fields (some a) (some b) t = add_pair (ints.int_of a) (ints.int_of b) t
  add_fields none second t = t
  add_fields (some a) none t = t

  abbrev add_interface : Text → List Text → Totals → Totals
  add_interface iface fields t =
      if iface == codes "lo" || not (truthy iface) || ltb (length fields) 9
      then t
      else add_fields (get_elem? fields 0) (get_elem? fields 8) t

  unfoldable pub net_dev_line : Totals → Text → Totals
  net_dev_line t line = elim (partition_at b':' line) [
    | none ↦ t
    | some (iface, rest) ↦ add_interface (strip iface) (split_words rest) t
  ]

  unfoldable pub net_dev_of_lines : List Text → Option (ℤ × ℤ)
  net_dev_of_lines lines = found_totals (λ n. n) (foldl net_dev_line no_totals lines)

  unfoldable pub parse_net_dev : Text → Option (ℤ × ℤ)
  parse_net_dev netdev_text = net_dev_of_lines (splitlines netdev_text)

  module _ (is_digit : ℕ → Bool) where
    abbrev is_counted : Option Text → Bool
    is_counted none = false
    is_counted (some name) = not (is_virtual_device name || is_partition is_digit name)

    unfoldable pub diskstats_line : Totals → Text → Totals
    diskstats_line t line =
        let fields = split_words line in
        if ltb (length fields) 10 || not (is_counted (get_elem? fields 2))
        then t
        else add_fields (get_elem? fields 5) (get_elem? fields 9) t

    unfoldable pub diskstats_of_lines : List Text → Option (ℤ × ℤ)
    diskstats_of_lines lines =
        found_totals (λ n. n *ℤ pos 512) (foldl diskstats_line no_totals lines)

    unfoldable pub parse_diskstats : Text → Option (ℤ × ℤ)
    parse_diskstats diskstats_text = diskstats_of_lines (splitlines diskstats_text)
