-- ===== src/Base/Tasks.antt =====
-- Tasks of asyncio.
use log_sump.Base.Errors.{Error}

-- How a task ends; `cancelled` is CancelledError.
pub data Outcome : Type 0 where
  returned cancelled : Outcome
  raised : Error → Outcome

-- A task goes on after its cancellation was asked for, until it takes it; it may as well end in
-- another way first.
pub data Phase : Type 0 where
  running cancelling : Phase
  ended : Outcome → Phase

-- task.cancel() does nothing to a task that has ended.
abbrev pub cancel : Phase → Phase
cancel running = cancelling
cancel cancelling = cancelling
cancel (ended o) = ended o

abbrev pub IsOver : Phase → Type 0
IsOver (ended o) = Unit
IsOver p = ⊥
