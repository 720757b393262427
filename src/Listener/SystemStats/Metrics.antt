-- ===== src/Listener/SystemStats/Metrics.antt =====
-- The host metrics of one cycle, from /proc or from the containers, in
-- packages/log-sump-listener/src/log_sump_listener/system_stats.py.
pub mod Sample
pub mod Host
mod Samples
use log_sump.Base.{
  ℕ, ◌^◌, ◌*◌, ◌%◌, Bool, true, false, not, Option, none, some, List, [], ◌∷◌, if◌then◌else◌,
  nat_eq, suc, zero,
}
use log_sump.Base.Int.{ℤ, pos, ◌+ℤ◌, ◌-ℤ◌, eq_ℤ}
use log_sump.Base.Text.{Text, codes, strip, truthy, Unicode}
use log_sump.Base.Lines.{splitlines}
use log_sump.Base.Numerals.{Ints}
use log_sump.Base.Dict.{Dict}
use log_sump.Base.Errors.{
  Error, Result, ok, err, ◌>>=◌, or_raise, value_error, is_transport_or_value_error,
}
use log_sump.Common.Schema.{Json, Float}
use log_sump.Common.Config.{float_truthy}
use log_sump.Common.Transport.{ExecResult, check}
use log_sump.Listener.ContainerListener.{Library}
use log_sump.Listener.JsonLines.{get_text}
use log_sump.Listener.Units.{Numbers, parse_pair_bytes, parse_percent}
use log_sump.Listener.SystemStats.Sections.{
  split_proc_sections, section, marker_stat, marker_meminfo, marker_netdev, marker_diskstats,
}
use log_sump.Listener.SystemStats.Proc.{
  parse_cpu_total_idle, parse_meminfo, parse_net_dev, parse_diskstats,
}
use log_sump.Listener.SystemStats.Cpu.{Floats, CpuSample, zero_float, hundred_float}

-- The values of host_metrics.get for the keys that the record uses: none for a key that is not there
-- and for the value None.
pub record HostMetrics : Type 0 where
  pub cpu_pct : Option Float
  pub mem_used_bytes : Option ℤ
  pub mem_limit_bytes : Option ℤ
  pub mem_pct : Option Float
  pub net_rx_bytes : Option ℤ
  pub net_tx_bytes : Option ℤ
  pub blk_read_bytes : Option ℤ
  pub blk_write_bytes : Option ℤ

abbrev pub no_metrics : HostMetrics
no_metrics = record {
  cpu_pct = none;
  mem_used_bytes = none;
  mem_limit_bytes = none;
  mem_pct = none;
  net_rx_bytes = none;
  net_tx_bytes = none;
  blk_read_bytes = none;
  blk_write_bytes = none;
}

-- The total and the idle time of the CPUs, and the total and the available memory.
abbrev pub Parts : Type 0
Parts = (ℤ × ℤ) × (ℤ × ℤ)

abbrev first_of : Option (ℤ × ℤ) → Option ℤ
first_of none = none
first_of (some p) = some p.0

abbrev second_of : Option (ℤ × ℤ) → Option ℤ
second_of none = none
second_of (some p) = some p.1

abbrev pub HostSample : Type 0
HostSample = HostMetrics × CpuSample

abbrev pub both : Option (ℤ × ℤ) → Option (ℤ × ℤ) → Result Parts
both (some cpu) (some mem) = ok (cpu, mem)
both none mem = err value_error
both (some cpu) none = err value_error

-- The block under try: the sections, and what of them must be there.
abbrev pub parts_of : Ints → Dict Text → Result (Dict Text × Parts)
parts_of ints sections = parse_cpu_total_idle ints (section marker_stat sections) >>= λ cpu.
    both cpu (parse_meminfo ints (section marker_meminfo sections)) >>= λ parts.
    ok (sections, parts)

abbrev pub needed : Ints → Result ExecResult → Result (Dict Text × Parts)
needed ints ran =
    ran >>= λ result. check result >>= λ result. parts_of ints (split_proc_sections result.stdout)

module _ (fl : Floats) (ints : Ints) (num : Numbers) where
  -- (100.0 * used / total) if total else None
  abbrev pub mem_percent : ℤ → ℤ → Result (Option Float)
  mem_percent used total =
      if eq_ℤ total (pos 0)
      then ok none
      else (fl.of_int used >>= λ x.
          fl.of_int total >>= λ y. fl.div (fl.mul hundred_float x) y >>= λ z. ok (some z))

  -- What the two parts that are needed and the two that are not make of a sample.
  abbrev pub metrics_of : Float → Parts → Option (ℤ × ℤ) → Option (ℤ × ℤ) → Result HostSample
  metrics_of at ((cpu_total, cpu_idle), (mem_total, mem_available)) net disk =
      mem_percent (mem_total -ℤ mem_available) mem_total >>= λ mem_pct. ok (
        record no_metrics {
          mem_used_bytes = some (mem_total -ℤ mem_available);
          mem_limit_bytes = some mem_total;
          mem_pct = mem_pct;
          net_rx_bytes = first_of net;
          net_tx_bytes = second_of net;
          blk_read_bytes = first_of disk;
          blk_write_bytes = second_of disk;
        },
        record { at = at; total = cpu_total; idle = cpu_idle },
      )

  abbrev pub proc_sample : Float → Result (Dict Text × Parts) → Result (Option HostSample)
  proc_sample at (err e) = if is_transport_or_value_error e then ok none else err e
  proc_sample at (ok (sections, parts)) =
      metrics_of at parts (parse_net_dev ints (section marker_netdev sections))
        (parse_diskstats ints num.is_digit (section marker_diskstats sections))
      >>= λ sample. ok (some sample)

  -- `ran` is what transport.run_shell returns or raises, and `at` is time.monotonic().
  unfoldable pub try_sample_proc : Float → Result ExecResult → Result (Option HostSample)
  try_sample_proc at ran = proc_sample at (needed ints ran)

-- The sums of the aggregate.
pub record Aggregate : Type 0 where
  pub cpu_pct_total : Float
  pub mem_used_total : ℤ
  pub net_rx_total : ℤ
  pub net_tx_total : ℤ
  pub count : ℕ

abbrev pub no_aggregate : Aggregate
no_aggregate = record {
  cpu_pct_total = zero_float;
  mem_used_total = pos 0;
  net_rx_total = pos 0;
  net_tx_total = pos 0;
  count = 0;
}

-- x or 0.0
abbrev pub float_or_zero : Option Float → Float
float_or_zero none = zero_float
float_or_zero (some x) = if float_truthy x then x else zero_float

-- n or 0
abbrev pub int_or_zero : Option ℤ → ℤ
int_or_zero none = pos 0
int_or_zero (some n) = n

abbrev pub aggregate_metrics : Aggregate → HostMetrics
aggregate_metrics a = if nat_eq a.count 0 then no_metrics else record no_metrics {
  cpu_pct = some a.cpu_pct_total;
  mem_used_bytes = some a.mem_used_total;
  net_rx_bytes = some a.net_rx_total;
  net_tx_bytes = some a.net_tx_total;
}

module _ (fl : Floats) (lib : Library) (u : Unicode) (num : Numbers) where
  abbrev pub aggregate_value : Aggregate → Json → Result Aggregate
  aggregate_value a row = get_text lib (codes "CPUPerc") row >>= λ cpu_perc.
      parse_percent num cpu_perc >>= λ cpu_pct. get_text lib (codes "MemUsage") row >>= λ mem_usage.
      parse_pair_bytes u num mem_usage >>= λ mem. get_text lib (codes "NetIO") row >>= λ net_io.
      parse_pair_bytes u num net_io >>= λ net. ok (record {
        cpu_pct_total = fl.add a.cpu_pct_total (float_or_zero cpu_pct);
        mem_used_total = a.mem_used_total +ℤ int_or_zero mem.0;
        net_rx_total = a.net_rx_total +ℤ int_or_zero net.0;
        net_tx_total = a.net_tx_total +ℤ int_or_zero net.1;
        count = suc a.count;
      })

  abbrev aggregate_row : Aggregate → Option Json → Result Aggregate
  aggregate_row a none = ok a
  aggregate_row a (some row) = aggregate_value a row

  -- One line, stripped.
  unfoldable pub aggregate_line : Aggregate → Text → Result Aggregate
  aggregate_line a line = if truthy line then aggregate_row a (lib.json_loads line) else ok a

  unfoldable pub aggregate_lines : Aggregate → List Text → Result Aggregate
  aggregate_lines a [] = ok a
  aggregate_lines a (line ∷ lines) = aggregate_line a (strip line) >>= λ b. aggregate_lines b lines

  abbrev pub aggregated : Result ExecResult → Result HostMetrics
  aggregated (err e) = if is_transport_or_value_error e then ok no_metrics else err e
  aggregated (ok result) =
      aggregate_lines no_aggregate (splitlines result.stdout) >>= λ a. ok (aggregate_metrics a)

  -- `ran` is what transport.run returns or raises.
  unfoldable pub try_sample_container_aggregate : Result ExecResult → Result HostMetrics
  try_sample_container_aggregate ran = aggregated (ran >>= λ result. check result)
