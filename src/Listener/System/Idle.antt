-- ===== src/Listener/System/Idle.antt =====
-- What the steps of the tasks of packages/log-sump-listener/src/log_sump_listener/app.py do to a
-- container that no task listens to.
use log_sump.Base.{
  ℕ, ◌≡◌, refl, sym, ap, ◌∙◌, true, false, ◌||◌, none, some, List, [], ◌∷◌, ◌++◌, arith,
}
use log_sump.Base.Text.{Text, ◌==◌, contains}
use log_sump.Base.Dict.{Dict, lookup, keys, lookup-insert, lookup-erase}
use log_sump.Listener.Manager.{Manager, has_task, spawn, on_done, stop, active_container_ids}
use log_sump.Listener.Manager.Steps.{
  Loop, asks, enters, others_enter, leaves, ends, takes_cancel, calls_back, stops,
}
use log_sump.Listener.Manager.Steps
use log_sump.Listener.System.{ask, IsOwn}

contains-append :
    (xs ys : List Text) (a : Text) → contains (xs ++ ys) a ≡ (contains xs a || contains ys a)
contains-append [] ys a = refl
contains-append (x ∷ xs) ys a = ground (arith, contains-append xs ys a)

contains-keys :
    (id : Text) (d : Dict ℕ)
    → contains (keys d) id ≡ (elim (lookup id d) [ none ↦ false | some n ↦ true ])
unfolding lookup
contains-keys id [] = refl
contains-keys id ((j, n) ∷ d) = ground (arith, contains-keys id d)

pub active-has_task :
    (id : Text) (m : Manager) → contains (active_container_ids m) id ≡ has_task id m
unfolding active_container_ids
active-has_task id m = contains-keys id m.tasks

-- What is not in a list is none of its parts.
pub not_head :
    (id other : Text) (xs rest : List Text)
    → xs ≡ other ∷ rest
    → contains xs id ≡ false
    → ((id == other) ≡ false) × (contains rest id ≡ false)
not_head id other xs rest h k =
    let e : (id == other || contains rest id) ≡ false = sym (ap (λ l. contains l id) h) ∙ k in
    (ground (arith, e), ground (arith, e))

not_between :
    (id other : Text) (xs before after : List Text)
    → xs ≡ before ++ (other ∷ after)
    → contains xs id ≡ false
    → ((id == other) ≡ false) × (contains (before ++ after) id ≡ false)
not_between id other xs before after h k =
    let e = sym (contains-append before (other ∷ after) id) ∙ sym (ap (λ l. contains l id) h) ∙ k in
    (ground (arith, e), contains-append before after id ∙ ground (arith, e))

spawn-has_task :
    (id other : Text) (m : Manager)
    → (id == other) ≡ false
    → has_task id (spawn other m) ≡ has_task id m
unfolding spawn
spawn-has_task id other m h = ground (arith, h, lookup-insert other id m.created m.tasks)

on_done-has_task :
    (id other : Text) (n : ℕ) (m : Manager)
    → has_task id m ≡ false
    → has_task id (on_done other n m) ≡ false
unfolding on_done
on_done-has_task id other n m h = ground (arith, h, lookup-erase other id m.tasks)

pub stop-has_task :
    (id other : Text) (m : Manager) → has_task id m ≡ false → has_task id (stop other m) ≡ false
unfolding stop
stop-has_task id other m h = ground (arith, h, lookup-erase other id m.tasks)

-- No listener, and none waiting for the semaphore.
abbrev pub IsIdle : Text → Loop → Type 0
IsIdle id l = (has_task id l.manager ≡ false) × (contains l.waiting id ≡ false)

pub ask-IsIdle :
    (id other : Text) (l : Loop) → (id == other) ≡ false → IsIdle id l → IsIdle id (ask other l)
ask-IsIdle id other l h (a, b) =
    (ground (arith, a), ground (arith, h, b, contains-append l.waiting (other ∷ []) id))

pub own-IsIdle :
    (id : Text) (l k : Loop) (step : Steps.Step l k) → IsOwn l k step → IsIdle id l → IsIdle id k
own-IsIdle id l k (asks _ _ _) own i = absurd own
own-IsIdle id l k (stops _ _) own i = absurd own
own-IsIdle id l k (enters _ other before after free w p) own (a, b) =
    let (other_id, rest) = not_between id other l.waiting before after w b in
    (spawn-has_task id other l.manager other_id ∙ a, rest)
own-IsIdle id l k (others_enter _ _ _) own i = i
own-IsIdle id l k (leaves _ _ _) own i = i
own-IsIdle id l k (ends _ n other p) own i = i
own-IsIdle id l k (takes_cancel _ n other p) own i = i
own-IsIdle id l k (calls_back _ n other p) own (a, b) = (on_done-has_task id other n l.manager a, b)
