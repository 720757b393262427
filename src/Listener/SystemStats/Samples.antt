-- ===== src/Listener/SystemStats/Samples.antt =====
-- A host with one CPU, some memory, two network interfaces and a disk with one partition.
use log_sump.Base.{◌≡◌, refl, some, none, Bool, true, false, [], ◌∷◌, map}
use log_sump.Base.Int.{pos, ◌+ℤ◌, ◌*ℤ◌}
use log_sump.Base.Text.{
  Text, codes, ◌==◌, text_discrete, ascii_only, strip, lstrip, rstrip, ends_with,
}
use log_sump.Base.Words.{partition_at, split_words}
use log_sump.Base.Numerals.{ascii_ints}
use log_sump.Base.Dict.{lookup, insert}
use log_sump.Base.Errors.{ok, err, transport_error}
use log_sump.Common.Schema.{Json}
use log_sump.Server.Samples.{utc}
use log_sump.Listener.ContainerListener.{Library}
use log_sump.Listener.Samples.{show_json, numbers, floats}
use log_sump.Listener.SystemStats.Devices.{span, drop_prefix, is_partition, is_virtual_device}
use log_sump.Listener.SystemStats.Cpu.{CpuSample, cpu_percent}
use log_sump.Listener.SystemStats.Proc.{
  cpu_of_lines, meminfo_of_lines, meminfo_line, net_dev_of_lines, net_dev_line, diskstats_of_lines,
  diskstats_line,
}
use log_sump.Listener.SystemStats.Bounds.{IsPercentage, cpu_percent-IsPercentage}
use log_sump.Listener.SystemStats.Metrics.Sample.{ProcFiles, printed}
use log_sump.Listener.SystemStats.Loop.{Cycle, run_system_stats}
use log_sump.Listener.SystemStats.Loop.History.{Records, run_system_stats-Records}
use log_sump.Listener.SystemStats.Loop.Outage.{IsOutage, AllBlank, run_system_stats-AllBlank}

abbrev files : ProcFiles
files = record {
  stat = codes "cpu  1 0 2 7 3" ∷ codes "cpu0 1 0 2 7 3" ∷ [];
  meminfo = codes "MemTotal:  8 kB" ∷ codes "MemFree: 1 kB" ∷ codes "MemAvailable: 5 kB" ∷ [];
  netdev =
      codes "lo: 1 0 0 0 0 0 0 0 1"
      ∷ codes " eth0: 2 0 0 0 0 0 0 0 3"
      ∷ codes " eth1: 4 0 0 0 0 0 0 0 5"
      ∷ [];
  diskstats =
      codes "8 0 sda 1 0 6 0 1 0 9"
      ∷ codes "8 1 sda1 1 0 6 0 1 0 9"
      ∷ codes "7 0 loop0 1 0 6 0 1 0 9"
      ∷ [];
}

abbrev first_line : Text
first_line = codes "cpu  1 0 2 7 3\n"

stat_test : cpu_of_lines ascii_ints files.stat ≡ ok (some (pos 13, pos 10))
unfolding cpu_of_lines split_words ◌+ℤ◌
stat_test = refl

meminfo_test : meminfo_of_lines ascii_ints files.meminfo ≡ some (pos 8192, pos 5120)
unfolding meminfo_of_lines meminfo_line partition_at strip lstrip rstrip ends_with text_discrete
    lookup insert ◌*ℤ◌
meminfo_test = refl

-- Loopback does not count.
net_dev_test : net_dev_of_lines ascii_ints files.netdev ≡ some (pos 6, pos 8)
unfolding net_dev_of_lines net_dev_line partition_at split_words strip lstrip rstrip text_discrete
    ◌+ℤ◌
net_dev_test = refl

-- A line whose second number does not read still counts with its first.
half_test :
    net_dev_of_lines ascii_ints
      (codes "eth0: 2 0 0 0 0 0 0 0 x" ∷ codes "eth1: 4 0 0 0 0 0 0 0 5" ∷ [])
    ≡ some (pos 6, pos 5)
unfolding net_dev_of_lines net_dev_line partition_at split_words strip lstrip rstrip text_discrete
    ◌+ℤ◌
half_test = refl

-- Neither the partition nor the loop device counts.
diskstats_test :
    diskstats_of_lines ascii_ints numbers.is_digit files.diskstats ≡ some (pos 3072, pos 4608)
unfolding diskstats_of_lines diskstats_line split_words is_partition is_virtual_device span
    drop_prefix ◌+ℤ◌ ◌*ℤ◌
diskstats_test = refl

nvme_test :
    map (is_partition numbers.is_digit) (codes "nvme0n1" ∷ codes "nvme0n1p2" ∷ [])
    ≡ false ∷ true ∷ []
unfolding is_partition span drop_prefix
nvme_test = refl

abbrev earlier : CpuSample
earlier = record { at = 1; total = pos 10; idle = pos 4 }

abbrev later : CpuSample
later = record { at = 2; total = pos 20; idle = pos 9 }

cpu_percent-IsPercentage_example :
    IsPercentage floats earlier later (cpu_percent floats earlier later)
cpu_percent-IsPercentage_example = cpu_percent-IsPercentage floats earlier later

abbrev lib : Library
lib = record {
  fromisoformat = λ s. none;
  json_loads = λ s. none;
  show = show_json;
  show_str = λ s. refl;
}

abbrev key_text : Json → Text
key_text = show_json

abbrev same_key : Json → Json → Bool
same_key a b = show_json a == show_json b

abbrev down : Cycle
down = record {
  df = err transport_error;
  proc = err transport_error;
  stats = err transport_error;
  at = 7;
  now = utc 1;
}

abbrev up : Cycle
up = record down { proc = ok (printed files []) }

run_system_stats-Records_example :
    Records key_text same_key floats ascii_ints lib ascii_only numbers [] (up ∷ down ∷ up ∷ []) (
      run_system_stats key_text same_key floats ascii_ints lib ascii_only numbers
        (codes "h")
        (codes "proc")
        (up ∷ down ∷ up ∷ []))
run_system_stats-Records_example =
    run_system_stats-Records key_text same_key floats ascii_ints lib ascii_only numbers (codes "h")
      (up ∷ down ∷ up ∷ [])

down_lem : IsOutage down
down_lem = ((_, refl, refl), (_, refl, refl), (_, refl, refl))

run_system_stats-AllBlank_example : AllBlank (down ∷ down ∷ []) (
    run_system_stats key_text same_key floats ascii_ints lib ascii_only numbers
      (codes "h")
      (codes "none")
      (down ∷ down ∷ []))
run_system_stats-AllBlank_example =
    run_system_stats-AllBlank key_text same_key floats ascii_ints lib ascii_only numbers (codes "h")
      (codes "none") (down ∷ down ∷ []) (down_lem, (down_lem, tt))
