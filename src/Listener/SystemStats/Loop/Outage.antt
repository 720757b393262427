-- ===== src/Listener/SystemStats/Loop/Outage.antt =====
-- run_system_stats of packages/log-sump-listener/src/log_sump_listener/system_stats.py while the host of
-- a daemon cannot be reached.
use log_sump.Base.{
  suc, ◌≡◌, refl, ap, inl, inr, Bool, true, Bool-cases, Option, none, List, [], ◌∷◌, length, All,
  arith,
}
use log_sump.Base.Text.{Text, codes, Unicode, ◌==◌}
use log_sump.Base.Numerals.{Ints}
use log_sump.Base.Errors.{Error, Result, ok, err, ◌>>=◌, is_transport_or_value_error}
use log_sump.Common.Schema.{Json, Float, MetricRecord}
use log_sump.Common.Transport.{ExecResult, check}
use log_sump.Listener.ContainerListener.{Library}
use log_sump.Listener.Units.{Numbers}
use log_sump.Listener.SystemStats.Cpu.{Floats, CpuSample}
use log_sump.Listener.SystemStats.DiskUsage.{try_sample_docker_disk_usage}
use log_sump.Listener.SystemStats.Metrics.{
  no_metrics, needed, try_sample_proc, try_sample_container_aggregate,
}
use log_sump.Listener.SystemStats.Loop.{
  aggregate_source, df_source, Cycle, State, Sampled, aggregate_sampled, record_of, sample_host,
  system_cycle, system_cycles, run_system_stats,
}

-- A command that ends by TransportError or ValueError, as one does that returns an exit status other
-- than 0.
abbrev pub Fails : Result ExecResult → Type 0
Fails ran =
    (e : Error) × ((ran >>= λ result. check result) ≡ err e)
    × (is_transport_or_value_error e ≡ true)

abbrev pub IsOutage : Cycle → Type 0
IsOutage c = Fails c.df × Fails c.proc × Fails c.stats

-- A record without any figure.
abbrev pub IsBlank : MetricRecord → Type 0
IsBlank r =
    (r.cpu_pct ≡ none)
    × (r.mem_used_bytes ≡ none)
    × (r.mem_limit_bytes ≡ none)
    × (r.mem_pct ≡ none)
    × (r.net_rx_bytes ≡ none)
    × (r.net_tx_bytes ≡ none)
    × (r.blk_read_bytes ≡ none)
    × (r.blk_write_bytes ≡ none)
    × (r.system_info ≡ none)

-- One blank record for each cycle, and no exception.
abbrev pub AllBlank : List Cycle → List MetricRecord × Option Error → Type 0
AllBlank cycles out = All IsBlank out.0 × (length out.0 ≡ length cycles) × (out.1 ≡ none)

module _ (key_text : Json → Text) (same_key : Json → Json → Bool) (fl : Floats) (ints : Ints)
    (lib : Library) (u : Unicode) (num : Numbers) where
  df_none :
      (ran : Result ExecResult)
      → Fails ran
      → try_sample_docker_disk_usage same_key lib u num ran ≡ ok none
  unfolding try_sample_docker_disk_usage
  df_none ran (e, h, k) = rw h (rw k refl)

  aggregate_none :
      (ran : Result ExecResult)
      → Fails ran
      → try_sample_container_aggregate fl lib u num ran ≡ ok no_metrics
  unfolding try_sample_container_aggregate
  aggregate_none ran (e, h, k) = rw h (rw k refl)

  needed-err :
      (ran : Result ExecResult) (e : Error)
      → (ran >>= λ result. check result) ≡ err e
      → needed ints ran ≡ err e
  needed-err (err d) e h = ground (arith, h)
  needed-err (ok result) e h = rw h refl

  proc_none :
      (at : Float) (ran : Result ExecResult)
      → Fails ran
      → try_sample_proc fl ints num at ran ≡ ok none
  unfolding try_sample_proc
  proc_none at ran (e, h, k) = rw (needed-err ran e h) (rw k refl)

  -- The cycle ends with nothing, and keeps what it had.
  abbrev Kept : Option CpuSample → Result Sampled → Type 0
  Kept prev x =
      (source : Text) × (x ≡ ok (record { metrics = no_metrics; source = source; prev_cpu = prev }))

  aggregate-Kept :
      (ran : Result ExecResult) (prev : Option CpuSample)
      → Fails ran
      → Kept prev (aggregate_sampled key_text same_key fl ints lib u num ran prev)
  aggregate-Kept ran prev h = (aggregate_source, rw (aggregate_none ran h) refl)

  host-Kept :
      (source : Text) (c : Cycle) (prev : Option CpuSample)
      → IsOutage c
      → Kept prev (sample_host key_text same_key fl ints lib u num source c prev)
  unfolding sample_host
  host-Kept source c prev (df, proc, stats) = elim (Bool-cases (source == codes "proc")) [
    | inl h ↦ rw h (rw (proc_none c.at c.proc proc) (aggregate-Kept c.stats prev stats))
    | inr h ↦ rw h (elim (Bool-cases (source == codes "container-aggregate")) [
      | inl k ↦ rw k (aggregate-Kept c.stats prev stats)
      | inr k ↦ rw k (df_source, refl)
    ])
  ]

  cycle_lem :
      (host source : Text) (c : Cycle) (s : State)
      → IsOutage c
      → (used : Text) × (system_cycle key_text same_key fl ints lib u num host source c s
          ≡ ok (
            record_of key_text host c.now s.next none
                (record { metrics = no_metrics; source = used; prev_cpu = s.prev_cpu }),
            record { next = suc s.next; prev_cpu = s.prev_cpu },
          ))
  unfolding system_cycle
  cycle_lem host source c s h =
      let (used, k) = host-Kept source c s.prev_cpu h in (used, rw (df_none c.df h.0) (rw k refl))

  cycles-AllBlank :
      (host source : Text) (cycles : List Cycle) (s : State)
      → All IsOutage cycles
      → AllBlank cycles (system_cycles key_text same_key fl ints lib u num host source cycles s)
  unfolding system_cycles
  cycles-AllBlank host source [] s h = (tt, refl, refl)
  cycles-AllBlank host source (c ∷ cycles) s (h, hs) =
      let (used, k) = cycle_lem host source c s h in
      let (a, b, d) =
        cycles-AllBlank host source cycles (record { next = suc s.next; prev_cpu = s.prev_cpu })
          hs in
      rw (system_cycles, k)
        (((refl, refl, refl, refl, refl, refl, refl, refl, refl), a), ap suc b, d)

  -- While each of the three commands of a cycle would end by TransportError or ValueError, as one does
  -- that returns an exit status other than 0, the loop goes on, whatever the source of its metrics: it
  -- logs one record for each cycle, without any figure.
  pub run_system_stats-AllBlank :
      (docker_host system_metrics_source : Text) (cycles : List Cycle)
      → All IsOutage cycles
      → AllBlank cycles (
          run_system_stats key_text same_key fl ints lib u num docker_host system_metrics_source
            cycles)
  unfolding run_system_stats
  run_system_stats-AllBlank docker_host source cycles h =
      cycles-AllBlank docker_host source cycles _ h
