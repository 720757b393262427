-- ===== src/Listener/ContainerStats/Ascending.antt =====
-- The records that packages/log-sump-listener/src/log_sump_listener/container_stats.py logs: their
-- numbers, and the containers that they are about.
use log_sump.Base.{
  Bool-elim, subst, ℕ, suc, ◌≤◌, ◌≡◌, refl, sym, inl, inr, ◌⊎◌, Bool, true, false, Option, none,
  some, List, [], ◌∷◌, ◌++◌, All, All-append, if◌then◌else◌, arith,
}
use log_sump.Base.Int.{pos}
use log_sump.Base.Text.{Text, codes, strip, truthy, contains, Unicode}
use log_sump.Base.Lines.{splitlines}
use log_sump.Base.Numerals.{Ints}
use log_sump.Base.Dict.{keys}
use log_sump.Base.Errors.{Result, ok, err, ◌>>=◌, OnOk, OnOk-weaken}
use log_sump.Common.Schema.{Json, null, MetricRecord}
use log_sump.Common.Transport.{ExecResult}
use log_sump.Listener.ContainerListener.{Library}
use log_sump.Listener.JsonLines.{get}
use log_sump.Listener.Registry.{state_for}
use log_sump.Listener.Units.{Numbers}
use log_sump.Listener.ContainerStats.Uncaught.{IsUncaught, stats_cycles-IsUncaught}
use log_sump.Listener.ContainerStats.Known.{parse_stats_line-IsRead, known_lem}
use log_sump.Listener.ContainerStats.{
  is_known_id, Log, Outcome, Cycle, log_line, known_line, row_line, go_on, caught, parse_stats_line,
  stats_line, stats_lines, sampled, sample_once, stats_cycle, stats_cycles, run_container_stats,
}

-- The numbers ascend from `low` on, and `high` is above them.
abbrev pub Ascends : ℕ → List MetricRecord → ℕ → Type 0
Ascends low [] high = low ≤ high
Ascends low (r ∷ records) high =
    (seq : ℕ) × (r.base.seq ≡ pos seq) × (low ≤ seq) × Ascends (suc seq) records high

Ascends-suc :
    (low : ℕ) (records : List MetricRecord) (high : ℕ)
    → Ascends low records high
    → Ascends low records (suc high)
Ascends-suc low [] high h = omega (arith, h)
Ascends-suc low (r ∷ records) high (seq, a, b, h) =
    (seq, a, b, Ascends-suc (suc seq) records high h)

Ascends-append :
    (low : ℕ) (records : List MetricRecord) (high : ℕ) (r : MetricRecord)
    → Ascends low records high
    → r.base.seq ≡ pos high
    → Ascends low (records ++ (r ∷ [])) (suc high)
Ascends-append low [] high r h e = (high, e, h, omega arith)
Ascends-append low (s ∷ records) high r (seq, a, b, h) e =
    (seq, a, b, Ascends-append (suc seq) records high r h e)

-- A record of a cycle: of its time, and about a container that the registry knew then.
abbrev pub IsOf : Text → Cycle → MetricRecord → Type 0
IsOf docker_host c r =
    (r.base.docker_host ≡ docker_host)
    × (r.base.ts ≡ c.now)
    × (contains (keys (state_for docker_host c.registry).containers) r.base.container_id ≡ true)

abbrev pub IsOfOne : Text → List Cycle → MetricRecord → Type 0
IsOfOne docker_host [] r = ⊥
IsOfOne docker_host (c ∷ cycles) r = IsOf docker_host c r ⊎ IsOfOne docker_host cycles r

module _ (lib : Library) (u : Unicode) (num : Numbers) (ints : Ints) where
  module _ (host : Text) (P : MetricRecord → Type 0) where
    abbrev IsLog : Log → Type 0
    IsLog log = Ascends 1 log.records log.next × All P log.records

    abbrev Covers : Cycle → Type 0
    Covers c = (r : MetricRecord) → IsOf host c r → P r

    log_line-IsLog :
        (x : Result MetricRecord) (log : Log)
        → IsLog log
        → OnOk (λ r. (r.base.seq ≡ pos log.next) × P r) x
        → IsLog (log_line x log).1
    log_line-IsLog (err e) log (a, p) h = (Ascends-suc 1 log.records log.next a, p)
    log_line-IsLog (ok r) log (a, p) (e, q) =
        (Ascends-append 1 log.records log.next r a e, All-append P log.records (r ∷ []) p (q, tt))

    known_line-IsLog :
        (c : Cycle) (row : Json) (known : Result Bool) (log : Log)
        → Covers c
        → (get (codes "ID") null row >>= λ v.
            is_known_id (keys (state_for host c.registry).containers) v)
          ≡ known
        → IsLog log
        → IsLog (known_line lib u num ints host c.now row known log).1
    known_line-IsLog c row (err e) log covers h is_log = is_log
    known_line-IsLog c row (ok false) log covers h is_log = is_log
    known_line-IsLog c row (ok true) log covers h is_log =
        log_line-IsLog (parse_stats_line lib u num ints host row log.next c.now) log is_log (
          OnOk-weaken _ _ (parse_stats_line lib u num ints host row log.next c.now)
            (parse_stats_line-IsRead lib u num ints host row log.next c.now)
            (λ r (a, b, d, e).
              (b, covers r (a, d, known_lem lib u num ints _ row r.base.container_id h e))))

    row_line-IsLog :
        (c : Cycle) (row : Option Json) (log : Log)
        → Covers c
        → IsLog log
        → IsLog
            (row_line lib u num ints host c.now
              (keys (state_for host c.registry).containers)
              row
              log).1
    row_line-IsLog c none log covers is_log = is_log
    row_line-IsLog c (some row) log covers is_log = known_line-IsLog c row _ log covers refl is_log

    stats_line-IsLog :
        (c : Cycle) (line : Text) (log : Log)
        → Covers c
        → IsLog log
        → IsLog
            (stats_line lib u num ints host c.now
              (keys (state_for host c.registry).containers)
              line
              log).1
    unfolding stats_line
    stats_line-IsLog c line log covers is_log =
        let known = keys (state_for host c.registry).containers in
        let IsLine : Bool → Type 0 = λ b.
          IsLog
            (if b
              then row_line lib u num ints host c.now known (lib.json_loads line) log
              else (none, log)).1 in
        Bool-elim IsLine (row_line-IsLog c (lib.json_loads line) log covers is_log) is_log
          (truthy line)

    -- What follows a coroutine that raised does not run.
    go_on-IsLog :
        (rest : Log → Outcome) (x : Outcome)
        → IsLog x.1
        → ((log : Log) → IsLog log → IsLog (rest log).1)
        → IsLog (go_on rest x).1
    go_on-IsLog rest (none, log) h k = k log h
    go_on-IsLog rest (some e, log) h k = h

    stats_lines-IsLog :
        (c : Cycle) (lines : List Text) (log : Log)
        → Covers c
        → IsLog log
        → IsLog
            (stats_lines lib u num ints host c.now
              (keys (state_for host c.registry).containers)
              lines
              log).1
    unfolding stats_lines
    stats_lines-IsLog c [] log covers is_log = is_log
    stats_lines-IsLog c (line ∷ lines) log covers is_log =
        go_on-IsLog _ _ (stats_line-IsLog c (strip line) log covers is_log)
          (λ log' h. stats_lines-IsLog c lines log' covers h)

    sampled-IsLog :
        (c : Cycle) (ran : Result ExecResult) (log : Log)
        → Covers c
        → IsLog log
        → IsLog (sampled lib u num ints host c.now c.registry ran log).1
    sampled-IsLog c (err e) log covers is_log = is_log
    sampled-IsLog c (ok result) log covers is_log =
        stats_lines-IsLog c (splitlines result.stdout) log covers is_log

    caught_log : (x : Outcome) → (caught x).1 ≡ x.1
    caught_log (none, log) = refl
    caught_log (some e, log) = refl

    stats_cycles-IsLog :
        (cycles : List Cycle) (log : Log)
        → All Covers cycles
        → IsLog log
        → IsLog (stats_cycles lib u num ints host cycles log).1
    unfolding stats_cycles stats_cycle sample_once
    stats_cycles-IsLog [] log covers is_log = is_log
    stats_cycles-IsLog (c ∷ cycles) log (k, ks) is_log =
        go_on-IsLog _ _
          (subst IsLog
            (sym (caught_log (sample_once lib u num ints host c.now c.registry c.ran log)))
            (sampled-IsLog c _ log k is_log))
          (λ log' h. stats_cycles-IsLog cycles log' ks h)

  IsOfOne-Covers :
      (host : Text) (cycles : List Cycle) (P : MetricRecord → Type 0)
      → ((r : MetricRecord) → IsOfOne host cycles r → P r)
      → All (Covers host P) cycles
  IsOfOne-Covers host [] P h = tt
  IsOfOne-Covers host (c ∷ cycles) P h =
      (λ r k. h r (inl k), IsOfOne-Covers host cycles P (λ r k. h r (inr k)))

  abbrev pub IsLogOf : Text → List Cycle → Outcome → Type 0
  IsLogOf host cycles (raised, log) =
      Ascends 1 log.records log.next
      × All (IsOfOne host cycles) log.records
      × IsUncaught lib u num ints raised

  -- However its cycles end, a daemon's loop logs records with ascending numbers from 1 on, and each is
  -- about a container that the registry knew in one of the cycles, with that cycle's time; and no
  -- exception that a cycle catches ends the loop.
  pub run_container_stats-IsLogOf :
      (docker_host : Text) (cycles : List Cycle)
      → IsLogOf docker_host cycles (run_container_stats lib u num ints docker_host cycles)
  unfolding run_container_stats
  run_container_stats-IsLogOf host cycles =
      let start : Log = record { next = 1; records = [] } in
      let (a, b) =
        stats_cycles-IsLog host (IsOfOne host cycles) cycles start
          (IsOfOne-Covers host cycles (IsOfOne host cycles) (λ r k. k)) (omega arith, tt) in
      (a, b, stats_cycles-IsUncaught lib u num ints host cycles start)
