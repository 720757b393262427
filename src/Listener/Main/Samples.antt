-- ===== src/Listener/Main/Samples.antt =====
-- Two loops, a signal, and what follows it; and a loop that raises.
use log_sump.Base.{◌+◌, ◌≤◌, ◌≡◌, refl, ◌⊎◌, inl, inr, true, some, List, [], ◌∷◌, length}
use log_sump.Base.Int.{pos}
use log_sump.Base.Text.{codes}
use log_sump.Base.Errors.{Result, ok, err, value_error}
use log_sump.Common.Config.{default_settings, default_logstash}
use log_sump.Listener.Logging.{RecordsLogger, new_handler, build_records_logger}
use log_sump.Listener.Wiring.{Task, listing_task, tracker_task}
use log_sump.Base.Tasks.{cancelled, raised, running, cancelling, ended}
use log_sump.Listener.Main.{
  left, gone, Process, begin, wake, joined, ends, fails, signals, wakes, joins, spawns, Steps, here,
  next, beside,
}
use log_sump.Listener.Main.Shutdown.{IsShutdown, Steps-IsShutdown}
use log_sump.Listener.Main.Progress.{Goes, Steps-ends}
use log_sump.Common.Transport.{local_transport}

-- A logger that already has a handler.
abbrev logger : RecordsLogger
logger = record { level = 0; propagate = true; handlers = new_handler default_logstash ∷ [] }

abbrev tasks : List Task
tasks = listing_task (codes "h") local_transport 0 ∷ tracker_task (codes "h") 0 (pos 3) ∷ []

abbrev s0 : Process
s0 = begin default_settings logger tasks

abbrev s1 : Process
s1 = record s0 { listeners = running ∷ [] }

abbrev s2 : Process
s2 = record s1 { signalled = true }

abbrev s3 : Process
s3 = wake s2

abbrev s4 : Process
s4 = record s3 { loops = ended cancelled ∷ cancelling ∷ [] }

abbrev s5 : Process
s5 = record s4 { run_task = some cancelled }

abbrev s6 : Process
s6 = joined cancelled s5

shutdown : Steps 5 s0 s6
unfolding begin wake joined
shutdown = beside 5 s0 s1 s6 (spawns s0) (
    next 4 s1 s2 s6 (signals s1 refl) (
      next 3 s2 s3 s6 (wakes s2 refl (inl refl)) (
        next 2 s3 s4 s6 (ends s3 [] (cancelling ∷ []) cancelling cancelled refl (λ h. h)) (
          next 1 s4 s5 s6 (fails s4 [] (cancelling ∷ []) cancelled refl refl (λ e. absurd cc))
            (next 0 s5 s6 s6 (joins s5 cancelled refl refl) (here s6))))))

-- The listener has not been cancelled.
listener_test : s6.listeners ≡ running ∷ []
unfolding begin wake joined
listener_test = refl

Steps-IsShutdown_example : IsShutdown default_logstash s6 (ok tt)
unfolding begin wake joined
Steps-IsShutdown_example = Steps-IsShutdown default_settings logger tasks 5 s6 (ok tt) shutdown refl

Steps-ends_example :
    (5 ≤ length tasks + 5)
    × (s6.signalled ≡ true → ((r : Result Unit) × (s6.point ≡ gone r)) ⊎ Goes s6)
Steps-ends_example = Steps-ends default_settings logger tasks 5 s6 shutdown

abbrev f1 : Process
f1 = record s0 { loops = running ∷ ended (raised value_error) ∷ [] }

abbrev f2 : Process
f2 = record f1 { run_task = some (raised value_error) }

abbrev f3 : Process
f3 = wake f2

abbrev f4 : Process
f4 = joined (raised value_error) f3

-- A loop that raises ends the process with its records unflushed.
crash : Steps 4 s0 f4
unfolding begin wake joined
crash = next 3 s0 f1 f4 (ends s0 (running ∷ []) [] running (raised value_error) refl (λ h. h)) (
    next 2 f1 f2 f4 (fails f1 (running ∷ []) [] (raised value_error) refl refl (λ e. absurd cc)) (
      next 1 f2 f3 f4 (wakes f2 refl (inr (λ e. absurd cc)))
        (next 0 f3 f4 f4 (joins f3 (raised value_error) refl refl) (here f4))))

crash_test :
    (f4.point ≡ left (err value_error)) × (f4.logger.handlers ≡ new_handler default_logstash ∷ [])
unfolding begin wake joined build_records_logger
crash_test = (refl, refl)
