-- ===== src/Listener/Manager/Steps.antt =====
-- How the coroutines of one ListenerManager of
-- packages/log-sump-listener/src/log_sump_listener/app.py interleave.
use log_sump.Base.{ℕ, suc, ◌≡◌, false, List, [], ◌∷◌, ◌++◌}
use log_sump.Base.Text.{Text}
use log_sump.Listener.Manager.{
  Phase, running, cancelled, ended, Manager, new_manager, set_phase, has_task, spawn, on_done, stop,
}

-- `waiting` are the spawns that passed the first test and wait for the semaphore, which has `permits`
-- left and is held `held` times, by the spawns of this daemon and of the others, which share it.
pub record Loop : Type 0 where
  pub manager : Manager
  pub waiting : List Text
  pub permits : ℕ
  pub held : ℕ

abbrev pub new_loop : ℕ → Loop
new_loop max_concurrent_listener_spawns = record {
  manager = new_manager;
  waiting = [];
  permits = max_concurrent_listener_spawns;
  held = 0;
}

abbrev pub set_task : ℕ → Phase → Manager → Manager
set_task n p m = record m { phase = set_phase n p m.phase }

-- One uninterrupted run of a coroutine or a callback.
pub data Step : Loop → Loop → Type 0 where
  asks :
      (s : Loop) (id : Text)
      → has_task id s.manager ≡ false
      → Step s (record s { waiting = s.waiting ++ (id ∷ []) })
  enters :
      (s : Loop) (id : Text) (before after : List Text) (free : ℕ)
      → s.waiting ≡ before ++ (id ∷ after)
      → s.permits ≡ suc free
      → Step s (record {
        manager = spawn id s.manager;
        waiting = before ++ after;
        permits = free;
        held = suc s.held;
      })
  others_enter :
      (s : Loop) (free : ℕ)
      → s.permits ≡ suc free
      → Step s (record s { permits = free; held = suc s.held })
  leaves :
      (s : Loop) (n : ℕ) → s.held ≡ suc n → Step s (record s { permits = suc s.permits; held = n })
  ends :
      (s : Loop) (n : ℕ) (id : Text)
      → s.manager.phase n ≡ running id
      → Step s (record s { manager = set_task n (ended id) s.manager })
  takes_cancel :
      (s : Loop) (n : ℕ) (id : Text)
      → s.manager.phase n ≡ cancelled id
      → Step s (record s { manager = set_task n (ended id) s.manager })
  calls_back :
      (s : Loop) (n : ℕ) (id : Text)
      → s.manager.phase n ≡ ended id
      → Step s (record s { manager = on_done id n s.manager })
  stops : (s : Loop) (id : Text) → Step s (record s { manager = stop id s.manager })

pub data Steps : Loop → Loop → Type 0 where
  here : (s : Loop) → Steps s s
  next : (s t u : Loop) → Step s t → Steps t u → Steps s u
