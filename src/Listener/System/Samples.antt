-- ===== src/Listener/System/Samples.antt =====
-- A container is listed, its listener starts and ends by itself, and the container is listed again.
use log_sump.Base.{◌≡◌, refl, true, false, none, [], ◌∷◌}
use log_sump.Base.Int.{pos}
use log_sump.Base.Text.{Text, codes, text_discrete}
use log_sump.Base.Dict.{lookup, insert, erase}
use log_sump.Listener.Registry.{ContainerRef, state_for, update, record_refs}
use log_sump.Listener.Registry.Updates.{ids_of}
use log_sump.Listener.Manager.{ended, has_task, spawn, on_done}
use log_sump.Listener.Manager.Steps.{Loop, new_loop, enters, leaves, ends, calls_back, set_task}
use log_sump.Listener.System.{System, ask, lists, hands_over, runs, Run, rests, goes}
use log_sump.Listener.System.Orphans.{IsOrphan, Run-unheard}

abbrev host : Text
host = codes "h"

abbrev id : Text
id = codes "a"

abbrev ref : ContainerRef
ref = record { container_id = id; container_name = codes "web" }

abbrev begun : System
begun = record {
  registry = record { daemons = []; notifies = true };
  loop = new_loop 1;
  reported = [];
  sweeping = [];
  stopping = none;
}

abbrev seen : System
seen = record begun {
  registry = (update host (ref ∷ []) begun.registry).0;
  reported = ids_of (update host (ref ∷ []) begun.registry).1;
}

abbrev asked : System
asked = record seen { reported = []; loop = ask id seen.loop }

abbrev entered : Loop
entered = record { manager = spawn id asked.loop.manager; waiting = []; permits = 0; held = 1 }

abbrev left : Loop
left = record entered { permits = 1; held = 0 }

abbrev died : Loop
died = record left { manager = set_task 0 (ended id) left.manager }

abbrev called_back : Loop
called_back = record died { manager = on_done id 0 died.manager }

abbrev orphaned : System
orphaned = record asked { loop = called_back }

abbrev seen_again : System
seen_again = record orphaned {
  registry = (update host (ref ∷ []) orphaned.registry).0;
  reported = ids_of (update host (ref ∷ []) orphaned.registry).1;
}

orphaned-Run : Run (pos 3) host begun orphaned
unfolding update record_refs state_for lookup insert spawn text_discrete
orphaned-Run = goes begun seen orphaned (lists begun (ref ∷ []) refl) (
    goes seen asked orphaned (hands_over seen id [] refl) (
      goes asked (record asked { loop = entered }) orphaned
        (runs asked entered (enters asked.loop id [] [] 0 refl refl) tt)
        (goes (record asked { loop = entered }) (record asked { loop = left }) orphaned
          (runs (record asked { loop = entered }) left (leaves entered 0 refl) tt)
          (goes (record asked { loop = left }) (record asked { loop = died }) orphaned
            (runs (record asked { loop = left }) died (ends left 0 id refl) tt)
            (goes (record asked { loop = died }) orphaned orphaned
              (runs (record asked { loop = died }) called_back (calls_back died 0 id refl) tt)
              (rests orphaned))))))

orphaned-IsOrphan : IsOrphan (pos 3) host id orphaned
unfolding update record_refs state_for lookup insert erase spawn on_done text_discrete
orphaned-IsOrphan = record {
  known = refl;
  idle = (refl, refl);
  unreported = refl;
  unswept = refl;
  unstopped = λ e. absurd cc;
}

Run-unheard_example : has_task id seen_again.loop.manager ≡ false
Run-unheard_example =
    Run-unheard (pos 3) host id orphaned seen_again
      (goes orphaned seen_again seen_again (lists orphaned (ref ∷ []) refl) (rests seen_again))
      orphaned-IsOrphan
