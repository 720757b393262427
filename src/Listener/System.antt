-- ===== src/Listener/System.antt =====
-- The registry, the tracker and the listener tasks of one daemon together: how
-- packages/log-sump-listener/src/log_sump_listener/app.py wires registry.py, container_tracker.py and
-- its own ListenerManager.
pub mod Idle
pub mod Orphans
mod Samples
use log_sump.Base.{
  ℕ, ◌≡◌, Bool, true, false, Option, none, some, List, [], ◌∷◌, ◌++◌, if◌then◌else◌,
}
use log_sump.Base.Int.{ℤ, leb_ℤ}
use log_sump.Base.Text.{Text}
use log_sump.Listener.Registry.{ContainerRef, Registry, state_for, put_state, update, forget}
use log_sump.Listener.Registry.Updates.{ids_of}
use log_sump.Listener.Tracker.{misses}
use log_sump.Listener.Manager.{has_task, stop, active_container_ids}
use log_sump.Listener.Manager.Steps.{
  Loop, new_loop, asks, enters, others_enter, leaves, ends, takes_cancel, calls_back, stops,
}
use log_sump.Listener.Manager.Steps

-- `reported` are the new containers that `update` has still to hand to the callback, `sweeping` those
-- that a sweep of the tracker has still to judge, and `stopping` the one whose listener it has told to
-- stop, before it forgets it.
pub record System : Type 0 where
  pub registry : Registry
  pub loop : Loop
  pub reported : List Text
  pub sweeping : List Text
  pub stopping : Option Text

-- `spawn` up to its wait for the semaphore.
abbrev pub ask : Text → Loop → Loop
ask id l = if has_task id l.manager then l else record l { waiting = l.waiting ++ (id ∷ []) }

-- The steps of a ListenerManager that nobody outside it asks for.
abbrev pub IsOwn : (l k : Loop) → Steps.Step l k → Type 0
IsOwn l k (asks _ _ _) = ⊥
IsOwn l k (stops _ _) = ⊥
IsOwn l k _ = Unit

module _ (missing_threshold : ℤ) (docker_host : Text) where
  -- The tracker's `if misses >= ...`, up to the wait for the task that was stopped.
  abbrev pub judge : Text → List Text → System → System
  judge id rest s =
      if leb_ℤ missing_threshold (misses missing_threshold id (state_for docker_host s.registry))
      then record s {
        loop = record (s.loop) { manager = stop id s.loop.manager };
        sweeping = rest;
        stopping = some id;
      }
      else record s { sweeping = rest }

  -- One uninterrupted run of a coroutine. A listing hands its containers over one by one; that the
  -- next may be handed over while one still waits is more than the code does.
  pub data Step : System → System → Type 0 where
    lists :
        (s : System) (listing : List ContainerRef)
        → s.reported ≡ []
        → Step s (record s {
          registry = (update docker_host listing s.registry).0;
          reported = ids_of (update docker_host listing s.registry).1;
        })
    hands_over :
        (s : System) (id : Text) (rest : List Text)
        → s.reported ≡ id ∷ rest
        → Step s (record s { reported = rest; loop = ask id s.loop })
    runs :
        (s : System) (l : Loop) (step : Steps.Step s.loop l)
        → IsOwn s.loop l step
        → Step s (record s { loop = l })
    sweeps :
        (s : System)
        → s.sweeping ≡ []
        → s.stopping ≡ none
        → Step s (record s {
          registry = put_state docker_host (state_for docker_host s.registry) s.registry;
          sweeping = active_container_ids s.loop.manager;
        })
    judges :
        (s : System) (id : Text) (rest : List Text)
        → s.sweeping ≡ id ∷ rest
        → s.stopping ≡ none
        → Step s (judge id rest s)
    forgets :
        (s : System) (id : Text)
        → s.stopping ≡ some id
        → Step s (record s { registry = forget docker_host id s.registry; stopping = none })

  pub data Run : System → System → Type 0 where
    rests : (s : System) → Run s s
    goes : (s t u : System) → Step s t → Run t u → Run s u
