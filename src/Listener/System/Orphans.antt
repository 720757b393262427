-- ===== src/Listener/System/Orphans.antt =====
-- What becomes of a container whose listener ended by itself, in the parts that
-- packages/log-sump-listener/src/log_sump_listener/app.py wires together.
use log_sump.Base.{
  ℕ, ◌≡◌, ◌∙◌, Bool, true, false, Option, none, some, List, ◌∷◌, inl, inr, if◌then◌else◌, arith,
  Bool-elim, Bool-cases,
}
use log_sump.Base.Int.{ℤ, leb_ℤ}
use log_sump.Base.Text.{Text, ◌==◌, contains, ==_refl}
use log_sump.Listener.Registry.{ContainerRef, Registry, state_for, update}
use log_sump.Listener.Registry.Updates.{
  absences, listed_in-last_seen, update-state_for, state_for-put_state,
}
use log_sump.Listener.Tracker.{misses}
use log_sump.Listener.Tracker.Absences.{forget-absences}
use log_sump.Listener.Tracker.History.{update-new}
use log_sump.Listener.Manager.{has_task, stop}
use log_sump.Listener.System.Idle.{
  IsIdle, not_head, ask-IsIdle, own-IsIdle, active-has_task, stop-has_task,
}
use log_sump.Listener.System.{
  System, judge, Step, lists, hands_over, runs, sweeps, judges, forgets, Run, rests, goes,
}

abbrev is_seen : Option ℕ → Bool
is_seen none = false
is_seen (some n) = true

module _ (missing_threshold : ℤ) (docker_host : Text) (id : Text) where
  -- The registry knows the container, nothing listens to it, and nothing is about to start a listener
  -- for it or to forget it.
  pub record IsOrphan (s : System) : Type 0 where
    pub known : is_seen (absences s.registry docker_host id) ≡ true
    pub idle : IsIdle id s.loop
    pub unreported : contains s.reported id ≡ false
    pub unswept : contains s.sweeping id ≡ false
    pub unstopped : (s.stopping ≡ some id) → ⊥

  update-seen :
      (listing : List ContainerRef) (r : Registry)
      → is_seen (absences r docker_host id) ≡ true
      → is_seen (absences (update docker_host listing r).0 docker_host id) ≡ true
  update-seen listing r h = ground (
    arith,
    h,
    ==_refl docker_host,
    update-state_for docker_host docker_host listing r,
    listed_in-last_seen listing (state_for docker_host r) id,
  )

  judge-IsOrphan :
      (other : Text) (rest : List Text) (s : System)
      → s.sweeping ≡ other ∷ rest
      → IsOrphan s
      → IsOrphan (judge missing_threshold docker_host other rest s)
  judge-IsOrphan other rest s h o =
      let (other_id, unswept) = not_head id other s.sweeping rest h o.unswept in
      let judged : Bool → System = λ b.
        if b
        then record s {
          loop = record (s.loop) { manager = stop other s.loop.manager };
          sweeping = rest;
          stopping = some other;
        }
        else record s { sweeping = rest } in
      Bool-elim (λ b. IsOrphan (judged b))
        (record {
          known = o.known;
          idle = (stop-has_task id other s.loop.manager o.idle.0, o.idle.1);
          unreported = o.unreported;
          unswept = unswept;
          unstopped = λ e. absurd (ground (arith, e, other_id));
        })
        (record {
          known = o.known;
          idle = o.idle;
          unreported = o.unreported;
          unswept = unswept;
          unstopped = o.unstopped;
        })
        (leb_ℤ missing_threshold
          (misses missing_threshold other (state_for docker_host s.registry)))

  Step-IsOrphan : (s t : System) → Step missing_threshold docker_host s t → IsOrphan s → IsOrphan t
  Step-IsOrphan s t (lists _ listing h) o = record {
    known = update-seen listing s.registry o.known;
    idle = o.idle;
    unreported = ground (arith, o.known, update-new docker_host listing s.registry id);
    unswept = o.unswept;
    unstopped = o.unstopped;
  }
  Step-IsOrphan s t (hands_over _ other rest h) o =
      let (other_id, unreported) = not_head id other s.reported rest h o.unreported in
      record {
        known = o.known;
        idle = ask-IsIdle id other s.loop other_id o.idle;
        unreported = unreported;
        unswept = o.unswept;
        unstopped = o.unstopped;
      }
  Step-IsOrphan s t (runs _ l step own) o = record {
    known = o.known;
    idle = own-IsIdle id s.loop l step own o.idle;
    unreported = o.unreported;
    unswept = o.unswept;
    unstopped = o.unstopped;
  }
  Step-IsOrphan s t (sweeps _ h k) o = record {
    known = ground (
      arith,
      o.known,
      state_for-put_state docker_host docker_host (state_for docker_host s.registry) s.registry,
    );
    idle = o.idle;
    unreported = o.unreported;
    unswept = active-has_task id s.loop.manager ∙ o.idle.0;
    unstopped = o.unstopped;
  }
  Step-IsOrphan s t (judges _ other rest h k) o = judge-IsOrphan other rest s h o
  Step-IsOrphan s t (forgets _ other h) o = record {
    known = elim (Bool-cases (id == other)) [
      | inl e ↦ absurd (o.unstopped (ground (arith, h, e)))
      | inr e ↦
          ground (arith, e, o.known, forget-absences docker_host docker_host other id s.registry)
    ];
    idle = o.idle;
    unreported = o.unreported;
    unswept = o.unswept;
    unstopped = λ e. absurd (ground (arith, e));
  }

  -- A container that the registry knows while nothing listens to it, waits to, or is about to forget
  -- it, as is the case once the callback of a listener that ended by itself has run, is never
  -- listened to again: whatever is listed, whatever the tracker sweeps, and however the coroutines
  -- interleave, no task is created for it.
  pub Run-unheard :
      (s t : System)
      → Run missing_threshold docker_host s t
      → IsOrphan s
      → has_task id t.loop.manager ≡ false
  Run-unheard s t (rests _) o = o.idle.0
  Run-unheard s t (goes _ u _ step run) o = Run-unheard u t run (Step-IsOrphan s u step o)
