-- ===== src/Listener/Main.antt =====
-- packages/log-sump-listener/src/log_sump_listener/__main__.py: `_run_until_signal`, with the part of
-- asyncio's tasks, of asyncio.gather and of asyncio.run that the end of the process rests on.
pub mod Shutdown
pub mod Progress
mod Samples
use log_sump.Base.{
  ℕ, suc, ◌≡◌, ◌≢◌, ◌⊎◌, Bool, true, false, Option, none, some, List, [], ◌∷◌, ◌++◌, map, All,
}
use log_sump.Base.Errors.{Error, Result, ok, err}
use log_sump.Base.Tasks.{
  Outcome, returned, cancelled, raised, Phase, running, cancelling, ended, cancel, IsOver,
}
use log_sump.Common.Config.{Settings}
use log_sump.Listener.Logging.{RecordsLogger, build_records_logger, close_records_logger}
use log_sump.Listener.Wiring.{Task}

-- Where `_run_until_signal` stands: at asyncio.wait, at `await run_task`, or behind its end.
-- asyncio.run then cancels all tasks that are left.
pub data Point : Type 0 where
  waiting joining : Point
  left gone : Result (Unit {0}) → Point

-- `loops` are the coroutines that `run` and `run_daemon` gather. `listeners` are the tasks that the
-- ListenerManagers create, which no gather holds.
pub record Process : Type 0 where
  pub loops : List Phase
  pub listeners : List Phase
  pub run_task : Option Outcome
  pub cancel_asked : Bool
  pub signalled : Bool
  pub point : Point
  pub logger : RecordsLogger

-- The process with the loops that `run` starts, up to asyncio.wait.
unfoldable pub begin : Settings → RecordsLogger → List Task → Process
begin settings logger tasks = record {
  loops = map (λ task. running) tasks;
  listeners = [];
  run_task = none;
  cancel_asked = false;
  signalled = false;
  point = waiting;
  logger = build_records_logger settings.logstash logger;
}

-- `finally`, up to `await run_task`: the task of `run` is cancelled unless it is done, and hands its
-- cancellation on to all that it gathers.
abbrev pub stop_run : Option Outcome → Process → Process
stop_run (some o) s = record s { point = joining }
stop_run none s = record s { loops = map cancel s.loops; cancel_asked = true; point = joining }

unfoldable pub wake : Process → Process
wake s = stop_run s.run_task s

-- `await run_task` with CancelledError suppressed, and what follows it. Any other exception leaves
-- the coroutine at once.
unfoldable pub joined : Outcome → Process → Process
joined returned s = record s { point = left (ok tt); logger = close_records_logger s.logger }
joined cancelled s = record s { point = left (ok tt); logger = close_records_logger s.logger }
joined (raised e) s = record s { point = left (err e) }

abbrev pub Due : Process → Type 0
Due s = (s.signalled ≡ true) ⊎ (s.run_task ≢ none)

-- The steps of a loop, of the task of `run`, of a signal handler and of `_run_until_signal`.
pub data Step : Process → Process → Type 0 where
  ends :
      (s : Process) (before after : List Phase) (p : Phase) (o : Outcome)
      → s.loops ≡ before ++ (p ∷ after)
      → (IsOver p → ⊥)
      → Step s (record s { loops = before ++ (ended o ∷ after) })
  returns :
      (s : Process)
      → s.run_task ≡ none
      → All (λ p. p ≡ ended returned) s.loops
      → Step s (record s { run_task = some returned })
  fails :
      (s : Process) (before after : List Phase) (o : Outcome)
      → s.run_task ≡ none
      → s.loops ≡ before ++ (ended o ∷ after)
      → o ≢ returned
      → Step s (record s { run_task = some o })
  is_cancelled :
      (s : Process)
      → s.run_task ≡ none
      → s.cancel_asked ≡ true
      → All IsOver s.loops
      → Step s (record s { run_task = some cancelled })
  signals : (s : Process) → s.signalled ≡ false → Step s (record s { signalled = true })
  wakes : (s : Process) → s.point ≡ waiting → Due s → Step s (wake s)
  joins :
      (s : Process) (o : Outcome) → s.point ≡ joining → s.run_task ≡ some o → Step s (joined o s)
  cleans_up :
      (s : Process) (r : Result Unit)
      → s.point ≡ left r
      → Step s (record s {
        loops = map cancel s.loops;
        listeners = map cancel s.listeners;
        point = gone r;
      })

-- The steps of the listener tasks: one is created, is stopped by its manager, or ends.
pub data Listens : Process → Process → Type 0 where
  spawns : (s : Process) → Listens s (record s { listeners = s.listeners ++ (running ∷ []) })
  stops :
      (s : Process) (before after : List Phase)
      → s.listeners ≡ before ++ (running ∷ after)
      → Listens s (record s { listeners = before ++ (cancelling ∷ after) })
  finishes :
      (s : Process) (before after : List Phase) (p : Phase) (o : Outcome)
      → s.listeners ≡ before ++ (p ∷ after)
      → (IsOver p → ⊥)
      → Listens s (record s { listeners = before ++ (ended o ∷ after) })

-- k steps, not counting those of the listeners.
pub data Steps : ℕ → Process → Process → Type 0 where
  here : (s : Process) → Steps 0 s s
  next : (k : ℕ) (s t u : Process) → Step s t → Steps k t u → Steps (suc k) s u
  beside : (k : ℕ) (s t u : Process) → Listens s t → Steps k t u → Steps k s u
