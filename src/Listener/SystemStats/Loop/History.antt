-- ===== src/Listener/SystemStats/Loop/History.antt =====
-- What the records of run_system_stats of
-- packages/log-sump-listener/src/log_sump_listener/system_stats.py owe to the cycles before.
use log_sump.Base.{ℕ, suc, ◌≡◌, refl, ap, Bool, Option, none, some, List, [], ◌∷◌, length}
use log_sump.Base.Int.{pos}
use log_sump.Base.Text.{Text, codes, Unicode, text_discrete}
use log_sump.Base.Numerals.{Ints}
use log_sump.Base.Errors.{Error, Result, ok, err, ◌>>=◌, OnOk, OnOk-bind, OnOk-self}
use log_sump.Common.Schema.{Json, MetricRecord}
use log_sump.Listener.ContainerListener.{Library}
use log_sump.Listener.Units.{Numbers}
use log_sump.Listener.SystemStats.Cpu.{Floats, CpuSample}
use log_sump.Listener.SystemStats.DiskUsage.{Rows, try_sample_docker_disk_usage}
use log_sump.Listener.SystemStats.Metrics.{
  HostSample, try_sample_proc, try_sample_container_aggregate,
}
use log_sump.Listener.SystemStats.Loop.{
  Cycle, State, Sampled, proc_source, aggregate_source, record_of, percent_since, proc_sampled,
  sample_host, system_cycle, system_cycles, run_system_stats, before,
}

module _ (key_text : Json → Text) (same_key : Json → Json → Bool) (fl : Floats) (ints : Ints)
    (lib : Library) (u : Unicode) (num : Numbers) where
  -- What a cycle reads from /proc.
  abbrev pub read_of : Cycle → Result (Option HostSample)
  read_of c = try_sample_proc fl ints num c.at c.proc

  abbrev newer : Result (Option HostSample) → Option CpuSample → Option CpuSample
  newer (ok (some (metrics, sample))) older = some sample
  newer (ok none) older = older
  newer (err e) older = older

  -- The sample of the last of the cycles, listed from the last one back, that had one.
  abbrev pub last_sample : List Cycle → Option CpuSample
  last_sample [] = none
  last_sample (c ∷ past) = newer (read_of c) (last_sample past)

  -- A record with what was read: its CPU percentage is the one since the sample of the last cycle that
  -- had one, and its other figures are what the cycle read.
  abbrev IsFrom : Option CpuSample → Result (Option HostSample) → MetricRecord → Type 0
  IsFrom prev (ok (some (metrics, sample))) r =
      (r.source ≡ proc_source)
      × (percent_since key_text same_key fl ints lib u num prev sample ≡ ok r.cpu_pct)
      × (r.mem_used_bytes ≡ metrics.mem_used_bytes)
      × (r.mem_limit_bytes ≡ metrics.mem_limit_bytes)
      × (r.mem_pct ≡ metrics.mem_pct)
      × (r.net_rx_bytes ≡ metrics.net_rx_bytes)
      × (r.net_tx_bytes ≡ metrics.net_tx_bytes)
      × (r.blk_read_bytes ≡ metrics.blk_read_bytes)
      × (r.blk_write_bytes ≡ metrics.blk_write_bytes)
  IsFrom prev (ok none) r = r.source ≡ aggregate_source
  IsFrom prev (err e) r = ⊥

  -- The records of the cycles after `past`, which is listed from the last one back, and what ended the
  -- loop.
  abbrev pub Records : List Cycle → List Cycle → List MetricRecord × Option Error → Type 0
  Records past [] (records, raised) = (records ≡ []) × (raised ≡ none)
  Records past (c ∷ cycles) ([], raised) = (e : Error) × (raised ≡ some e)
  Records past (c ∷ cycles) (r ∷ records, raised) =
      (r.base.seq ≡ pos (suc (length past)))
      × (r.base.ts ≡ c.now)
      × IsFrom (last_sample past) (read_of c) r
      × Records (c ∷ past) cycles (records, raised)

  -- What one reading does to a cycle.
  abbrev IsSampled :
      Text
      → Cycle
      → ℕ
      → Option CpuSample
      → Result (Option HostSample)
      → Option Rows
      → Sampled
      → Type 0
  IsSampled host c seq prev read disk s =
      IsFrom prev read (record_of key_text host c.now seq disk s) × (s.prev_cpu ≡ newer read prev)

  sampled-IsSampled :
      (host : Text) (c : Cycle) (seq : ℕ) (prev : Option CpuSample)
      (read : Result (Option HostSample)) (disk : Option Rows)
      → OnOk (IsSampled host c seq prev read disk) (
          read >>= λ sampled. proc_sampled key_text same_key fl ints lib u num c.stats prev sampled)
  sampled-IsSampled host c seq prev (err e) disk = tt
  sampled-IsSampled host c seq prev (ok none) disk =
      OnOk-bind _ (IsSampled host c seq prev (ok none) disk)
        (try_sample_container_aggregate fl lib u num c.stats) _
        (OnOk-self (try_sample_container_aggregate fl lib u num c.stats))
        (λ metrics h. (refl, refl))
  sampled-IsSampled host c seq prev (ok (some (metrics, sample))) disk =
      let since = percent_since key_text same_key fl ints lib u num prev sample in
      OnOk-bind _ (IsSampled host c seq prev (ok (some (metrics, sample))) disk) since _
        (OnOk-self since) (λ pct h. ((refl, h, refl, refl, refl, refl, refl, refl, refl), refl))

  -- What a cycle logs and keeps.
  abbrev IsCycle : Cycle → List Cycle → MetricRecord × State → Type 0
  IsCycle c past (r, s) =
      (r.base.seq ≡ pos (suc (length past)))
      × (r.base.ts ≡ c.now)
      × IsFrom (last_sample past) (read_of c) r
      × (s ≡ record { next = suc (suc (length past)); prev_cpu = last_sample (c ∷ past) })

  cycle-IsCycle :
      (host : Text) (c : Cycle) (past : List Cycle)
      → OnOk (IsCycle c past) (
          system_cycle key_text same_key fl ints lib u num host
            (codes "proc")
            c
            (record { next = suc (length past); prev_cpu = last_sample past }))
  unfolding system_cycle sample_host text_discrete
  cycle-IsCycle host c past =
      let seq = suc (length past) in
      let prev = last_sample past in
      let df = try_sample_docker_disk_usage same_key lib u num c.df in
      OnOk-bind _ (IsCycle c past) df _ (OnOk-self df) (λ disk h.
        OnOk-bind (IsSampled host c seq prev (read_of c) disk) (IsCycle c past)
          (read_of c >>= λ sampled.
            proc_sampled key_text same_key fl ints lib u num c.stats prev sampled)
          _ (sampled-IsSampled host c seq prev (read_of c) disk)
          (λ s k. (refl, refl, k.0, ap (λ p. record { next = suc seq; prev_cpu = p }) k.1)))

  cycle_Records :
      (host : Text) (c : Cycle) (past cycles : List Cycle) (x : Result (MetricRecord × State))
      → OnOk (IsCycle c past) x
      → Records (c ∷ past) cycles (
          system_cycles key_text same_key fl ints lib u num host
            (codes "proc")
            cycles
            (record { next = suc (suc (length past)); prev_cpu = last_sample (c ∷ past) }))
      → Records past (c ∷ cycles) (elim x [
        | err e ↦ ([], some e)
        | ok (r, s) ↦
            before r
              (system_cycles key_text same_key fl ints lib u num host (codes "proc") cycles s)
      ])
  cycle_Records host c past cycles (err e) h later = (e, refl)
  cycle_Records host c past cycles (ok (r, s)) (a, b, d, same) later = (a, b, d, rw same later)

  cycles-Records :
      (host : Text) (past cycles : List Cycle)
      → Records past cycles (
          system_cycles key_text same_key fl ints lib u num host
            (codes "proc")
            cycles
            (record { next = suc (length past); prev_cpu = last_sample past }))
  unfolding system_cycles
  cycles-Records host past [] = (refl, refl)
  cycles-Records host past (c ∷ cycles) =
      cycle_Records host c past cycles _ (cycle-IsCycle host c past)
        (cycles-Records host (c ∷ past) cycles)

  -- With "proc" as the source of its metrics, the loop logs one record for each cycle, numbered from 1
  -- on, until a cycle raises. A record says whether it is from /proc, which it is exactly when the
  -- reading of /proc succeeded in its cycle; then it has the figures of that reading, and its CPU
  -- percentage is the one since the sample of the last earlier cycle that read /proc, however many
  -- cycles failed to between them, and none if there was no such cycle.
  pub run_system_stats-Records :
      (docker_host : Text) (cycles : List Cycle)
      → Records [] cycles
          (run_system_stats key_text same_key fl ints lib u num docker_host (codes "proc") cycles)
  unfolding run_system_stats
  run_system_stats-Records docker_host cycles = cycles-Records docker_host [] cycles
