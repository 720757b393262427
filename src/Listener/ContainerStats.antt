-- ===== src/Listener/ContainerStats.antt =====
-- packages/log-sump-listener/src/log_sump_listener/container_stats.py: the metrics of the containers
-- of a daemon.
pub mod Known
pub mod Uncaught
pub mod Ascending
pub mod Sampled
mod Samples
use log_sump.Base.{
  ℕ, suc, Bool, true, false, Option, none, some, List, [], ◌∷◌, ◌++◌, if◌then◌else◌,
}
use log_sump.Base.Int.{ℤ, pos}
use log_sump.Base.Text.{Text, codes, strip, truthy, contains, Unicode}
use log_sump.Base.Lines.{splitlines}
use log_sump.Base.Numerals.{Ints}
use log_sump.Base.Dict.{keys}
use log_sump.Base.Errors.{
  Error, Result, ok, err, ◌>>=◌, or_raise, value_error, type_error, is_transport_or_value_error,
}
use log_sump.Common.Schema.{
  Json, null, boolean, int, float, str, arr, obj, DateTime, Float, MetricRecord, MetricScope,
  container,
}
use log_sump.Common.Transport.{ExecResult, check}
use log_sump.Listener.ContainerListener.{Library}
use log_sump.Listener.JsonLines.{get, get_text}
use log_sump.Listener.Registry.{Registry, state_for}
use log_sump.Listener.Units.{Numbers, parse_pair_bytes, parse_percent}

abbrev pub stats_command : List Text
stats_command =
    codes "docker"
    ∷ codes "stats"
    ∷ codes "--no-stream"
    ∷ codes "--format"
    ∷ codes "{{json .}}"
    ∷ []

-- data.get("ID") in known_ids: a list or an object has no hash.
abbrev pub is_known_id : List Text → Json → Result Bool
is_known_id known_ids (str s) = ok (contains known_ids s)
is_known_id known_ids (arr items) = err type_error
is_known_id known_ids (obj fields) = err type_error
is_known_id known_ids _ = ok false

-- The next number of the counter, and the records that are logged.
pub record Log : Type 0 where
  pub next : ℕ
  pub records : List MetricRecord

-- What a coroutine raises, or none where it returns, and the log it leaves.
abbrev pub Outcome : Type 0
Outcome = Option Error × Log

-- The number is taken before the line is read, and stays taken where that raises.
abbrev log_line : Result MetricRecord → Log → Outcome
log_line (err e) log = (some e, record log { next = suc log.next })
log_line (ok r) log = (none, record { next = suc log.next; records = log.records ++ (r ∷ []) })

abbrev go_on : (Log → Outcome) → Outcome → Outcome
go_on rest (none, log) = rest log
go_on rest (some e, log) = (some e, log)

-- One cycle: when, with what registry, and what the command returned or raised.
pub record Cycle : Type 0 where
  pub now : DateTime
  pub registry : Registry
  pub ran : Result ExecResult

abbrev caught : Outcome → Outcome
caught (none, log) = (none, log)
caught (some e, log) = (if is_transport_or_value_error e then none else some e, log)

module _ (lib : Library) (u : Unicode) (num : Numbers) (ints : Ints) where
  unfoldable pub parse_int : Json → Option ℤ
  parse_int null = none
  parse_int value = ints.int_of (strip (lib.show value))

  abbrev pub stats_record :
      Text
      → Json
      → ℕ
      → DateTime
      → (name id : Text) → (mem net blk : Option ℤ × Option ℤ) → (cpu_pct mem_pct : Option Float)
      → Json
      → MetricRecord
  stats_record docker_host row seq ts name id mem net blk cpu_pct mem_pct pids = record {
    base = record {
      docker_host = docker_host;
      container_name = name;
      container_id = id;
      ts = ts;
      seq = pos seq;
    };
    metric_scope = container;
    cpu_pct = cpu_pct;
    mem_used_bytes = mem.0;
    mem_limit_bytes = mem.1;
    mem_pct = mem_pct;
    net_rx_bytes = net.0;
    net_tx_bytes = net.1;
    blk_read_bytes = blk.0;
    blk_write_bytes = blk.1;
    pids = parse_int pids;
    system_info = none;
    source = codes "docker stats";
    raw = row;
  }

  -- parse_pair_bytes(str(data.get(key, ""))) and parse_percent(str(data.get(key, "")))
  abbrev pub pair_of : Text → Json → Result (Option ℤ × Option ℤ)
  pair_of key row = get_text lib key row >>= λ s. parse_pair_bytes u num s

  abbrev pub percent_of : Text → Json → Result (Option Float)
  percent_of key row = get_text lib key row >>= λ s. parse_percent num s

  unfoldable pub parse_stats_line : Text → Json → ℕ → DateTime → Result MetricRecord
  parse_stats_line docker_host row seq ts = pair_of (codes "MemUsage") row >>= λ mem.
      pair_of (codes "NetIO") row >>= λ net. pair_of (codes "BlockIO") row >>= λ blk.
      get_text lib (codes "Name") row >>= λ name. get_text lib (codes "ID") row >>= λ id.
      percent_of (codes "CPUPerc") row >>= λ cpu_pct.
      percent_of (codes "MemPerc") row >>= λ mem_pct. get (codes "PIDs") null row >>= λ pids.
      ok (stats_record docker_host row seq ts name id mem net blk cpu_pct mem_pct pids)

  abbrev known_line : Text → DateTime → Json → Result Bool → Log → Outcome
  known_line docker_host now row (err e) log = (some e, log)
  known_line docker_host now row (ok false) log = (none, log)
  known_line docker_host now row (ok true) log =
      log_line (parse_stats_line docker_host row log.next now) log

  abbrev row_line : Text → DateTime → List Text → Option Json → Log → Outcome
  row_line docker_host now known_ids none log = (some value_error, log)
  row_line docker_host now known_ids (some row) log =
      known_line docker_host now row (get (codes "ID") null row >>= λ id. is_known_id known_ids id)
        log

  -- One line, stripped.
  unfoldable pub stats_line : Text → DateTime → List Text → Text → Log → Outcome
  stats_line docker_host now known_ids line log =
      if truthy line
      then row_line docker_host now known_ids (lib.json_loads line) log
      else (none, log)

  unfoldable pub stats_lines : Text → DateTime → List Text → List Text → Log → Outcome
  stats_lines docker_host now known_ids [] log = (none, log)
  stats_lines docker_host now known_ids (line ∷ lines) log =
      go_on (stats_lines docker_host now known_ids lines)
        (stats_line docker_host now known_ids (strip line) log)

  abbrev sampled : Text → DateTime → Registry → Result ExecResult → Log → Outcome
  sampled docker_host now registry (err e) log = (some e, log)
  sampled docker_host now registry (ok result) log =
      stats_lines docker_host now (keys (state_for docker_host registry).containers)
        (splitlines result.stdout) log

  -- `ran` is what transport.run returns or raises.
  unfoldable pub sample_once : Text → DateTime → Registry → Result ExecResult → Log → Outcome
  sample_once docker_host now registry ran log =
      sampled docker_host now registry (ran >>= λ result. check result) log

  unfoldable pub stats_cycle : Text → Cycle → Log → Outcome
  stats_cycle docker_host c log = caught (sample_once docker_host c.now c.registry c.ran log)

  -- The loop, from a state of the counter on; an exception that is not caught ends it.
  unfoldable pub stats_cycles : Text → List Cycle → Log → Outcome
  stats_cycles docker_host [] log = (none, log)
  stats_cycles docker_host (c ∷ cycles) log =
      go_on (stats_cycles docker_host cycles) (stats_cycle docker_host c log)

  -- itertools.count(1)
  unfoldable pub run_container_stats : Text → List Cycle → Outcome
  run_container_stats docker_host cycles =
      stats_cycles docker_host cycles (record { next = 1; records = [] })
