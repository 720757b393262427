-- ===== src/Listener/ContainerStats/Uncaught.antt =====
-- The exceptions that end the loop of
-- packages/log-sump-listener/src/log_sump_listener/container_stats.py.
use log_sump.Base.{◌≡◌, inl, inr, false, Bool-cases, Option, none, some, List, [], ◌∷◌}
use log_sump.Base.Text.{Text, Unicode}
use log_sump.Base.Numerals.{Ints}
use log_sump.Base.Errors.{Error, is_transport_or_value_error}
use log_sump.Listener.ContainerListener.{Library}
use log_sump.Listener.Units.{Numbers}
use log_sump.Listener.ContainerStats.{
  Log, Outcome, Cycle, go_on, caught, sample_once, stats_cycle, stats_cycles,
}

module _ (lib : Library) (u : Unicode) (num : Numbers) (ints : Ints) where
  -- None of the errors that a cycle catches ends the loop.
  abbrev pub IsUncaught : Option Error → Type 0
  IsUncaught none = Unit
  IsUncaught (some e) = is_transport_or_value_error e ≡ false

  caught-IsUncaught : (x : Outcome) → IsUncaught (caught x).0
  caught-IsUncaught (none, log) = tt
  caught-IsUncaught (some e, log) = elim (Bool-cases (is_transport_or_value_error e)) [
    | inl h ↦ rw h tt
    | inr h ↦ rw h h
  ]

  go_on-IsUncaught :
      (rest : Log → Outcome) (x : Outcome)
      → IsUncaught x.0
      → ((log : Log) → IsUncaught (rest log).0)
      → IsUncaught (go_on rest x).0
  go_on-IsUncaught rest (none, log) h k = k log
  go_on-IsUncaught rest (some e, log) h k = h

  pub stats_cycles-IsUncaught :
      (host : Text) (cycles : List Cycle) (log : Log)
      → IsUncaught (stats_cycles lib u num ints host cycles log).0
  unfolding stats_cycles stats_cycle
  stats_cycles-IsUncaught host [] log = tt
  stats_cycles-IsUncaught host (c ∷ cycles) log =
      go_on-IsUncaught _ _
        (caught-IsUncaught (sample_once lib u num ints host c.now c.registry c.ran log))
        (λ log'. stats_cycles-IsUncaught host cycles log')
