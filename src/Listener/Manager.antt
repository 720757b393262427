-- ===== src/Listener/Manager.antt =====
-- packages/log-sump-listener/src/log_sump_listener/app.py: ListenerManager, the listener tasks of
-- one daemon, with the part of asyncio's event loop that its coroutines interleave on.
pub mod Steps
pub mod Unique
mod Samples
use log_sump.Base.{
  ℕ, suc, Bool, true, false, Option, none, some, List, [], ◌∷◌, if◌then◌else◌, nat_eq,
}
use log_sump.Base.Text.{Text}
use log_sump.Base.Dict.{Dict, lookup, insert, erase, keys}

-- A task listens to a container until it ends or takes its cancellation; then its done callback is
-- due, and runs later.
pub data Phase : Type 0 where
  unborn : Phase
  running cancelled ended : Text → Phase
  finished : Phase

-- `tasks` is self._tasks, from a container to the number of its task; tasks are numbered in the order
-- of their creation.
pub record Manager : Type 0 where
  pub tasks : Dict ℕ
  pub created : ℕ
  pub phase : ℕ → Phase

abbrev pub new_manager : Manager
new_manager = record { tasks = []; created = 0; phase = λ n. unborn }

abbrev pub set_phase : ℕ → Phase → (ℕ → Phase) → ℕ → Phase
set_phase n p phase m = if nat_eq m n then p else phase m

-- `ref.container_id in self._tasks`, the test before and after the semaphore is acquired.
abbrev pub has_task : Text → Manager → Bool
has_task id m = elim (lookup id m.tasks) [ none ↦ false | some n ↦ true ]

-- `spawn` from the moment it holds the semaphore.
unfoldable pub spawn : Text → Manager → Manager
spawn id m = if has_task id m then m else record {
  tasks = insert id m.created m.tasks;
  created = suc m.created;
  phase = set_phase m.created (running id) m.phase;
}

abbrev is_task : ℕ → Option ℕ → Bool
is_task n none = false
is_task n (some k) = nat_eq k n

-- The done callback of task `n`, made for a container.
unfoldable pub on_done : Text → ℕ → Manager → Manager
on_done id n m = record {
  tasks = if is_task n (lookup id m.tasks) then erase id m.tasks else m.tasks;
  created = m.created;
  phase = set_phase n finished m.phase;
}

-- A task that has ended is not changed by its cancellation.
abbrev cancel : Phase → Phase
cancel (running id) = cancelled id
cancel p = p

-- self._tasks.pop(container_id, None) and task.cancel()
abbrev popped : Text → Option ℕ → Manager → Manager
popped id none m = m
popped id (some n) m = record {
  tasks = erase id m.tasks;
  created = m.created;
  phase = set_phase n (cancel (m.phase n)) m.phase;
}

-- `stop` up to its await.
unfoldable pub stop : Text → Manager → Manager
stop id m = popped id (lookup id m.tasks) m

unfoldable pub active_container_ids : Manager → List Text
active_container_ids m = keys m.tasks
