-- ===== src/Listener/SystemStats/Proc/DiskStats.antt =====
-- The table of /proc/diskstats, and what
-- packages/log-sump-listener/src/log_sump_listener/system_stats.py sums over it.
use log_sump.Base.{
  ℕ, ◌+◌, ◌*◌, ◌≡◌, ap, ◌∙◌, inl, inr, Bool, true, false, not, ◌||◌, Bool-cases, Option, none, some,
  List, [], ◌∷◌, ◌++◌, map, All, foldl, if◌then◌else◌, arith,
}
use log_sump.Base.Int.{ℤ, pos, ◌*ℤ◌, pos-+ℤ, pos-*ℤ}
use log_sump.Base.Text.{Text}
use log_sump.Base.Words.{split_words, IsWord, spaced, split_words-spaced}
use log_sump.Base.Strip.{IsGap, split_words-gap}
use log_sump.Base.Numerals.{Ints, show_nat, show_nat-IsWord}
use log_sump.Listener.SystemStats.Devices.{is_partition, is_virtual_device}
use log_sump.Listener.SystemStats.Proc.{Totals, found_totals, diskstats_line, diskstats_of_lines}
use log_sump.Listener.SystemStats.Proc.NetDev.{show-words}

-- A row: two numbers of the device, its name, the four columns of the reads, the first three of the
-- writes, and further columns.
pub record Disk : Type 0 where
  pub gap : Text
  pub major : ℕ
  pub minor : ℕ
  pub name : Text
  pub reads : ℕ
  pub reads_merged : ℕ
  pub sectors_read : ℕ
  pub read_ms : ℕ
  pub writes : ℕ
  pub writes_merged : ℕ
  pub sectors_written : ℕ
  pub more : List ℕ

abbrev pub counts : Disk → List ℕ
counts d =
    d.reads ∷ d.reads_merged ∷ d.sectors_read ∷ d.read_ms ∷ d.writes ∷ d.writes_merged
    ∷ d.sectors_written ∷ d.more

abbrev pub cells : Disk → List Text
cells d = show_nat d.major ∷ show_nat d.minor ∷ d.name ∷ map show_nat (counts d)

abbrev pub disk_row : Disk → Text
disk_row d = d.gap ++ spaced (cells d)

abbrev pub IsDisk : Disk → Type 0
IsDisk d = IsGap d.gap × IsWord d.name

cells-words : (d : Disk) → IsDisk d → split_words (disk_row d) ≡ cells d
cells-words d (g, w) =
    split_words-gap d.gap (spaced (cells d)) g
    ∙ split_words-spaced (cells d)
        (show_nat-IsWord d.major, (show_nat-IsWord d.minor, (w, show-words (counts d))))

module _ (is_digit : ℕ → Bool) where
  -- Neither a partition nor a virtual device.
  abbrev pub is_whole : Disk → Bool
  is_whole d = not (is_virtual_device d.name || is_partition is_digit d.name)

  -- The sums over the whole devices, and whether there is one.
  abbrev pub read_total : List Disk → ℕ
  read_total [] = 0
  read_total (d ∷ ds) = (if is_whole d then d.sectors_read else 0) + read_total ds

  abbrev pub written_total : List Disk → ℕ
  written_total [] = 0
  written_total (d ∷ ds) = (if is_whole d then d.sectors_written else 0) + written_total ds

  abbrev pub has_whole : List Disk → Bool
  has_whole [] = false
  has_whole (d ∷ ds) = is_whole d || has_whole ds

  -- 512 bytes for a sector; nothing without a whole device.
  abbrev pub disk_bytes : List Disk → Option (ℤ × ℤ)
  disk_bytes ds =
      if has_whole ds then some (pos (read_total ds * 512), pos (written_total ds * 512)) else none

  abbrev totals : ℕ → ℕ → Bool → Totals
  totals a b f = record { first = pos a; second = pos b; found = f }

  module _ (ints : Ints) where
    row_lem :
        (d : Disk) (a b : ℕ) (f : Bool)
        → IsDisk d
        → diskstats_line ints is_digit (totals a b f) (disk_row d) ≡ (
            if is_whole d
            then totals (a + d.sectors_read) (b + d.sectors_written) true
            else totals a b f)
    unfolding diskstats_line
    row_lem d a b f h = rw (cells-words d h) (
        ground (
          arith,
          ints.int_show d.sectors_read,
          ints.int_show d.sectors_written,
          pos-+ℤ a d.sectors_read,
          pos-+ℤ b d.sectors_written,
        ))

    rows_lem :
        (ds : List Disk) (a b : ℕ) (f : Bool)
        → All IsDisk ds
        → foldl (diskstats_line ints is_digit) (totals a b f) (map disk_row ds)
          ≡ totals (a + read_total ds) (b + written_total ds) (f || has_whole ds)
    rows_lem [] a b f h = ground arith
    rows_lem (d ∷ ds) a b f (h, hs) =
        ap (λ t. foldl (diskstats_line ints is_digit) t (map disk_row ds)) (row_lem d a b f h)
        ∙ elim (Bool-cases (is_whole d)) [
          | inl k ↦
              rw k (rows_lem ds (a + d.sectors_read) (b + d.sectors_written) true hs ∙ ground arith)
          | inr k ↦ rw k (rows_lem ds a b f hs ∙ ground arith)
        ]

    -- Of a table of disks the bytes read from and written to the whole devices are summed up.
    pub diskstats_of_lines-table :
        (ds : List Disk)
        → All IsDisk ds
        → diskstats_of_lines ints is_digit (map disk_row ds) ≡ disk_bytes ds
    unfolding diskstats_of_lines
    diskstats_of_lines-table ds h =
        ap (found_totals (λ n. n *ℤ pos 512)) (rows_lem ds 0 0 false h)
        ∙ ground (arith, pos-*ℤ (read_total ds) 512, pos-*ℤ (written_total ds) 512)
