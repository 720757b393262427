-- ===== src/Listener/Manager/Unique.antt =====
-- The tasks and the dictionary of a ListenerManager of
-- packages/log-sump-listener/src/log_sump_listener/app.py, under any interleaving.
use log_sump.Base.{ℕ, ◌+◌, ◌≤◌, ◌≡◌, refl, ◌∙◌, Option, none, some, arith, ◌⊎◌}
use log_sump.Base.Text.{Text}
use log_sump.Base.Dict.{lookup, lookup-insert, lookup-erase}
use log_sump.Listener.Manager.{
  unborn, running, cancelled, ended, Manager, new_manager, spawn, on_done, stop, popped,
}
use log_sump.Listener.Manager.Steps.{
  Loop, new_loop, Step, asks, enters, others_enter, leaves, ends, takes_cancel, calls_back, stops,
  Steps, here, next, set_task,
}

-- The task that listens to a container is the one recorded for it; a recorded task listens to its
-- container, or has ended and waits for its callback; tasks not yet created have not run.
pub record IsSound (m : Manager) : Type 0 where
  pub owned : (n : ℕ) (id : Text) → m.phase n ≡ running id → lookup id m.tasks ≡ some n
  pub live :
      (n : ℕ) (id : Text)
      → lookup id m.tasks ≡ some n
      → (m.phase n ≡ running id) ⊎ (m.phase n ≡ ended id)
  pub fresh : (n : ℕ) → m.created ≤ n → m.phase n ≡ unborn

new_manager-IsSound : IsSound new_manager
unfolding lookup
new_manager-IsSound = record { owned = λ n id h. cc; live = λ n id h. cc; fresh = λ n h. refl }

spawn-IsSound : (id : Text) (m : Manager) → IsSound m → IsSound (spawn id m)
unfolding spawn
spawn-IsSound id m i = record {
  owned = λ n j h. ground (arith, h, i.owned n j, lookup-insert id j m.created m.tasks);
  live = λ n j h.
      ground (arith, h, i.live n j, i.fresh m.created, lookup-insert id j m.created m.tasks);
  fresh = λ n h. ground (arith, h, i.fresh n);
}

on_done-IsSound :
    (id : Text) (n : ℕ) (m : Manager) → m.phase n ≡ ended id → IsSound m → IsSound (on_done id n m)
unfolding on_done
on_done-IsSound id n m e i = record {
  owned = λ k j h. ground (arith, e, h, i.owned k j, lookup-erase id j m.tasks);
  live = λ k j h. ground (arith, e, h, i.live k j, lookup-erase id j m.tasks);
  fresh = λ k h. ground (arith, e, h, i.fresh k);
}

popped-IsSound :
    (id : Text) (o : Option ℕ) (m : Manager)
    → lookup id m.tasks ≡ o
    → IsSound m
    → IsSound (popped id o m)
popped-IsSound id none m e i = i
popped-IsSound id (some n) m e i = record {
  owned = λ k j h. ground (arith, e, h, i.owned k j, i.live n id e, lookup-erase id j m.tasks);
  live = λ k j h. ground (arith, e, h, i.live k j, i.live n id e, lookup-erase id j m.tasks);
  fresh = λ k h. ground (arith, e, h, i.fresh k, i.live n id e);
}

stop-IsSound : (id : Text) (m : Manager) → IsSound m → IsSound (stop id m)
unfolding stop
stop-IsSound id m i = popped-IsSound id (lookup id m.tasks) m refl i

ran-IsSound :
    (id : Text) (n : ℕ) (m : Manager)
    → m.phase n ≡ running id
    → IsSound m
    → IsSound (set_task n (ended id) m)
ran-IsSound id n m e i = record {
  owned = λ k j h. ground (arith, e, h, i.owned k j);
  live = λ k j h. ground (arith, e, h, i.live k j);
  fresh = λ k h. ground (arith, e, h, i.fresh k);
}

cancelled-IsSound :
    (id : Text) (n : ℕ) (m : Manager)
    → m.phase n ≡ cancelled id
    → IsSound m
    → IsSound (set_task n (ended id) m)
cancelled-IsSound id n m e i = record {
  owned = λ k j h. ground (arith, e, h, i.owned k j);
  live = λ k j h. ground (arith, e, h, i.live k j);
  fresh = λ k h. ground (arith, e, h, i.fresh k);
}

Step-IsSound : (s t : Loop) → Step s t → IsSound s.manager → IsSound t.manager
Step-IsSound _ _ (asks s id h) i = i
Step-IsSound _ _ (enters s id b a f hw hp) i = spawn-IsSound id s.manager i
Step-IsSound _ _ (others_enter s f hp) i = i
Step-IsSound _ _ (leaves s n h) i = i
Step-IsSound _ _ (ends s n id e) i = ran-IsSound id n s.manager e i
Step-IsSound _ _ (takes_cancel s n id e) i = cancelled-IsSound id n s.manager e i
Step-IsSound _ _ (calls_back s n id e) i = on_done-IsSound id n s.manager e i
Step-IsSound _ _ (stops s id) i = stop-IsSound id s.manager i

Steps-IsSound : (s t : Loop) → Steps s t → IsSound s.manager → IsSound t.manager
Steps-IsSound _ _ (here s) i = i
Steps-IsSound _ _ (next s t u h hs) i = Steps-IsSound t u hs (Step-IsSound s t h i)

Step-permits : (s t : Loop) → Step s t → t.permits + t.held ≡ s.permits + s.held
Step-permits _ _ (asks s id h) = refl
Step-permits _ _ (enters s id b a f hw hp) = ground (arith, hp)
Step-permits _ _ (others_enter s f hp) = ground (arith, hp)
Step-permits _ _ (leaves s n h) = ground (arith, h)
Step-permits _ _ (ends s n id e) = refl
Step-permits _ _ (takes_cancel s n id e) = refl
Step-permits _ _ (calls_back s n id e) = refl
Step-permits _ _ (stops s id) = refl

Steps-permits : (s t : Loop) → Steps s t → t.permits + t.held ≡ s.permits + s.held
Steps-permits _ _ (here s) = refl
Steps-permits _ _ (next s t u h hs) = Steps-permits t u hs ∙ Step-permits s t h

Steps-IsSound_new : (limit : ℕ) (s : Loop) → Steps (new_loop limit) s → IsSound s.manager
Steps-IsSound_new limit s reach = Steps-IsSound (new_loop limit) s reach new_manager-IsSound

-- However spawns, stops, ends, cancellations and callbacks interleave from the start, two tasks that
-- listen to the same container are the same task, and it is the one recorded for it; and beside it
-- the semaphore is held at most as often as its limit.
pub Steps-one_listener :
    (limit : ℕ) (s : Loop) (n k : ℕ) (id : Text)
    → Steps (new_loop limit) s
    → s.manager.phase n ≡ running id
    → s.manager.phase k ≡ running id
    → (n ≡ k) × (lookup id s.manager.tasks ≡ some n) × (s.held ≤ limit)
Steps-one_listener limit s n k id reach hn hk =
    let i = Steps-IsSound_new limit s reach in
    (
      ground (arith, i.owned n id hn, i.owned k id hk),
      i.owned n id hn,
      ground (arith, Steps-permits (new_loop limit) s reach),
    )

-- However spawns, stops, ends, cancellations and callbacks interleave from the start, a task that is
-- recorded for a container listens to it, or has ended and its callback is due.
pub Steps-recorded :
    (limit : ℕ) (s : Loop) (n : ℕ) (id : Text)
    → Steps (new_loop limit) s
    → lookup id s.manager.tasks ≡ some n
    → (s.manager.phase n ≡ running id) ⊎ (s.manager.phase n ≡ ended id)
Steps-recorded limit s n id reach h = (Steps-IsSound_new limit s reach).live n id h
