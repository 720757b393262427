-- ===== src/Listener/SystemStats/Loop.antt =====
-- run_system_stats of packages/log-sump-listener/src/log_sump_listener/system_stats.py: where a cycle
-- takes its metrics from, and what it keeps for the next one.
pub mod History
pub mod Outage
use log_sump.Base.{
  ℕ, suc, Bool, true, false, Option, none, some, List, [], ◌∷◌, ◌++◌, if◌then◌else◌,
}
use log_sump.Base.Int.{ℤ, pos}
use log_sump.Base.Text.{Text, codes, ◌==◌, Unicode}
use log_sump.Base.Numerals.{Ints}
use log_sump.Base.Dict.{Dict, insert}
use log_sump.Base.Errors.{Error, Result, ok, err, ◌>>=◌}
use log_sump.Common.Schema.{
  Json, null, int, str, obj, Fields, end, field, Float, DateTime, MetricRecord, system,
  system_scope_id,
}
use log_sump.Common.Transport.{ExecResult}
use log_sump.Listener.ContainerListener.{Library}
use log_sump.Listener.Units.{Numbers}
use log_sump.Listener.SystemStats.Cpu.{Floats, CpuSample, cpu_percent}
use log_sump.Listener.SystemStats.DiskUsage.{Rows, Usage, try_sample_docker_disk_usage}
use log_sump.Listener.SystemStats.Metrics.{
  HostMetrics, no_metrics, HostSample, try_sample_proc, try_sample_container_aggregate,
}

abbrev pub df_source : Text
df_source = codes "docker system df"

abbrev pub proc_source : Text
proc_source = codes "/proc"

abbrev pub aggregate_source : Text
aggregate_source = codes "container-aggregate"

-- What the cycle's commands return or raise, and the clocks' times.
pub record Cycle : Type 0 where
  pub df : Result ExecResult
  pub proc : Result ExecResult
  pub stats : Result ExecResult
  pub at : Float
  pub now : DateTime

-- What is kept from one cycle to the next: the counter and prev_cpu.
pub record State : Type 0 where
  pub next : ℕ
  pub prev_cpu : Option CpuSample

-- host_metrics, source and prev_cpu after a cycle's branches.
pub record Sampled : Type 0 where
  pub metrics : HostMetrics
  pub source : Text
  pub prev_cpu : Option CpuSample

abbrev int_value : Option ℤ → Json
int_value none = null
int_value (some n) = int n

abbrev usage_value : Usage → Json
usage_value w = obj (
    field (codes "total") w.total (
      field (codes "active") w.active (
        field (codes "size_bytes") (int_value w.size_bytes) (
          field (codes "reclaimable_bytes") (int_value w.reclaimable_bytes)
            (field (codes "raw") w.raw end)))))

-- `key_text` is how a key of a dict is dumped.
module _ (key_text : Json → Text) where
  abbrev rows_value : Rows → Fields
  rows_value [] = end
  rows_value ((k, w) ∷ rows) = field (key_text k) (usage_value w) (rows_value rows)

  abbrev system_of : Option Rows → Option (Dict Json)
  system_of none = none
  system_of (some rows) = some ((codes "docker_disk_usage", obj (rows_value rows)) ∷ [])

  abbrev pub record_of : Text → DateTime → ℕ → Option Rows → Sampled → MetricRecord
  record_of docker_host now seq docker_disk s = record {
    base = record {
      docker_host = docker_host;
      container_name = system_scope_id;
      container_id = system_scope_id;
      ts = now;
      seq = pos seq;
    };
    metric_scope = system;
    cpu_pct = s.metrics.cpu_pct;
    mem_used_bytes = s.metrics.mem_used_bytes;
    mem_limit_bytes = s.metrics.mem_limit_bytes;
    mem_pct = s.metrics.mem_pct;
    net_rx_bytes = s.metrics.net_rx_bytes;
    net_tx_bytes = s.metrics.net_tx_bytes;
    blk_read_bytes = s.metrics.blk_read_bytes;
    blk_write_bytes = s.metrics.blk_write_bytes;
    pids = none;
    system_info = system_of docker_disk;
    source = s.source;
    raw = null;
  }

abbrev pub before :
    MetricRecord → List MetricRecord × Option Error → List MetricRecord × Option Error
before r (records, raised) = (r ∷ records, raised)

module _ (key_text : Json → Text) (same_key : Json → Json → Bool) (fl : Floats) (ints : Ints)
    (lib : Library) (u : Unicode) (num : Numbers) where
  abbrev pub aggregate_sampled : Result ExecResult → Option CpuSample → Result Sampled
  aggregate_sampled stats prev_cpu =
      try_sample_container_aggregate fl lib u num stats >>= λ metrics.
      ok (record { metrics = metrics; source = aggregate_source; prev_cpu = prev_cpu })

  -- host_metrics["cpu_pct"], where there is a sample before.
  abbrev pub percent_since : Option CpuSample → CpuSample → Result (Option Float)
  percent_since none curr = ok none
  percent_since (some prev) curr = cpu_percent fl prev curr

  abbrev pub proc_sampled :
      Result ExecResult → Option CpuSample → Option HostSample → Result Sampled
  proc_sampled stats prev_cpu none = aggregate_sampled stats prev_cpu
  proc_sampled stats prev_cpu (some (metrics, cpu_sample)) =
      percent_since prev_cpu cpu_sample >>= λ cpu_pct. ok (record {
        metrics = record metrics { cpu_pct = cpu_pct };
        source = proc_source;
        prev_cpu = some cpu_sample;
      })

  unfoldable pub sample_host : Text → Cycle → Option CpuSample → Result Sampled
  sample_host system_metrics_source c prev_cpu =
      if system_metrics_source == codes "proc"
      then (try_sample_proc fl ints num c.at c.proc >>= λ sampled.
          proc_sampled c.stats prev_cpu sampled)
      else if system_metrics_source == codes "container-aggregate"
      then aggregate_sampled c.stats prev_cpu
      else ok (record { metrics = no_metrics; source = df_source; prev_cpu = prev_cpu })

  -- One cycle: the record that it logs, and what it keeps. What it raises ends the loop.
  unfoldable pub system_cycle : Text → Text → Cycle → State → Result (MetricRecord × State)
  system_cycle docker_host system_metrics_source c s =
      try_sample_docker_disk_usage same_key lib u num c.df >>= λ docker_disk.
      sample_host system_metrics_source c s.prev_cpu >>= λ sampled. ok (
        record_of key_text docker_host c.now s.next docker_disk sampled,
        record { next = suc s.next; prev_cpu = sampled.prev_cpu },
      )

  -- The loop from a state on: the records that it logs, and what ended it.
  unfoldable pub system_cycles : Text → Text → List Cycle → State → List MetricRecord × Option Error
  system_cycles docker_host system_metrics_source [] s = ([], none)
  system_cycles docker_host system_metrics_source (c ∷ cycles) s =
      elim (system_cycle docker_host system_metrics_source c s) [
        | err e ↦ ([], some e)
        | ok (r, s') ↦ before r (system_cycles docker_host system_metrics_source cycles s')
      ]

  unfoldable pub run_system_stats : Text → Text → List Cycle → List MetricRecord × Option Error
  run_system_stats docker_host system_metrics_source cycles =
      system_cycles docker_host system_metrics_source cycles (record { next = 1; prev_cpu = none })
