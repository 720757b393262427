-- ===== src/Listener/SystemStats/Metrics/Host.antt =====
-- The sample of packages/log-sump-listener/src/log_sump_listener/system_stats.py, from the files that
-- the kernel of a host prints.
use log_sump.Base.{ℕ, ◌*◌, ◌+◌, ◌≡◌, Option, none, some, List, ◌∷◌, ◌++◌, map, All, if◌then◌else◌}
use log_sump.Base.Int.{ℤ, pos, ◌-ℤ◌, eq_ℤ}
use log_sump.Base.Text.{Text}
use log_sump.Base.Words.{partition_at}
use log_sump.Base.Numerals.{Ints}
use log_sump.Base.Errors.{Result, ok, ◌>>=◌}
use log_sump.Common.Schema.{Float}
use log_sump.Listener.Units.{Numbers}
use log_sump.Listener.SystemStats.Cpu.{Floats, hundred_float}
use log_sump.Listener.SystemStats.Proc.Stat.{CpuTimes, times_of, cpu_row, total}
use log_sump.Listener.SystemStats.Proc.MemInfo.{MemRow, mem_row, IsMemRow, memory_of}
use log_sump.Listener.SystemStats.Proc.NetDev.{
  Interface, row_of, IsInterface, has_other, rx_total, tx_total,
}
use log_sump.Listener.SystemStats.Proc.DiskStats.{
  Disk, disk_row, IsDisk, has_whole, read_total, written_total,
}
use log_sump.Listener.SystemStats.Metrics.{HostSample}
use log_sump.Listener.SystemStats.Metrics.Sample.{ProcFiles, AreFiles}

-- The times of all CPUs and the further lines of /proc/stat, the rows of /proc/meminfo, the header
-- and the interfaces of /proc/net/dev, and the devices of /proc/diskstats.
pub record Host : Type 0 where
  pub cpu : CpuTimes
  pub stat_lines : List Text
  pub memory : List MemRow
  pub header : List Text
  pub interfaces : List Interface
  pub disks : List Disk

abbrev pub files_of : Host → ProcFiles
files_of h = record {
  stat = cpu_row h.cpu ∷ h.stat_lines;
  meminfo = map mem_row h.memory;
  netdev = h.header ++ map row_of h.interfaces;
  diskstats = map disk_row h.disks;
}

abbrev pub IsHost : Host → Type 0
IsHost h =
    AreFiles (files_of h)
    × All IsMemRow h.memory
    × All (λ l. partition_at b':' l ≡ none) h.header
    × All IsInterface h.interfaces
    × All IsDisk h.disks

-- One of two figures of the interfaces, where there is another than loopback, and of the disks, where
-- there is one to count.
abbrev pub net_figure : Host → ℕ → Option ℤ
net_figure h n = if has_other h.interfaces then some (pos n) else none

module _ (fl : Floats) (ints : Ints) (num : Numbers) where
  abbrev pub disk_figure : Host → ℕ → Option ℤ
  disk_figure h sectors =
      if has_whole num.is_digit h.disks then some (pos (sectors * 512)) else none

  -- 100.0 * used / total, in this order, and none of no memory. Floats may overflow.
  abbrev pub percentage : ℤ → ℤ → Result (Option Float)
  percentage used total =
      if eq_ℤ total (pos 0)
      then ok none
      else (fl.of_int used >>= λ x.
          fl.of_int total >>= λ y. fl.div (fl.mul hundred_float x) y >>= λ z. ok (some z))

  -- The sample of a host with this total and this available memory.
  abbrev pub figures : Host → Float → ℤ → ℤ → Result (Option HostSample)
  figures h at total_memory available =
      percentage (total_memory -ℤ available) total_memory >>= λ pct. ok (
        some (
          record {
            cpu_pct = none;
            mem_used_bytes = some (total_memory -ℤ available);
            mem_limit_bytes = some total_memory;
            mem_pct = pct;
            net_rx_bytes = net_figure h (rx_total h.interfaces);
            net_tx_bytes = net_figure h (tx_total h.interfaces);
            blk_read_bytes = disk_figure h (read_total num.is_digit h.disks);
            blk_write_bytes = disk_figure h (written_total num.is_digit h.disks);
          },
          record {
            at = at;
            total = pos (total (times_of h.cpu));
            idle = pos (h.cpu.idle + h.cpu.iowait);
          },
        ))

  -- The sample of a host; without a row for the total memory there is none.
  abbrev pub sample_of : Host → Float → Result (Option HostSample)
  sample_of h at = elim (memory_of h.memory) [
    | none ↦ ok none
    | some (total_memory, available) ↦ figures h at total_memory available
  ]

  abbrev cpu_figures : Host → ℤ × ℤ
  cpu_figures h = (pos (total (times_of h.cpu)), pos (h.cpu.idle + h.cpu.iowait))

  abbrev net_figures : Host → Option (ℤ × ℤ)
  net_figures h =
      if has_other h.interfaces
      then some (pos (rx_total h.interfaces), pos (tx_total h.interfaces))
      else none
