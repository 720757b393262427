-- ===== src/Listener/Tracker/Samples.antt =====
-- Two containers on one daemon: the second is missing from the last two listings.
use log_sump.Base.{◌≡◌, refl, true, ◌&&◌, some, List, [], ◌∷◌}
use log_sump.Base.Int.{pos}
use log_sump.Base.Text.{Text, codes, contains, text_discrete}
use log_sump.Listener.Registry.{ContainerRef, update}
use log_sump.Listener.Registry.Updates.{ids_of, absences}
use log_sump.Listener.Tracker.{run_once}
use log_sump.Listener.Tracker.Absences.{is_gone}
use log_sump.Listener.Tracker.History.{
  Event, listed, swept, handle_all, observe, observe_all, new_registry, nothing_seen, is_unseen,
  run_once-stops-missing, update-reports-new,
}

abbrev h : Text
h = codes "h"

abbrev web : ContainerRef
web = record { container_id = codes "a"; container_name = codes "web" }

abbrev job : ContainerRef
job = record { container_id = codes "b"; container_name = codes "job" }

abbrev events : List Event
events =
    listed h (web ∷ job ∷ [])
    ∷ listed h (web ∷ [])
    ∷ swept h (codes "a" ∷ codes "b" ∷ [])
    ∷ listed h (web ∷ [])
    ∷ []

abbrev active : List Text
active = codes "a" ∷ codes "b" ∷ []

events_test : observe_all (pos 2) events nothing_seen h (codes "b") ≡ some 2
unfolding text_discrete
events_test = refl

run_once-stops-missing_example :
    (contains
        (run_once (pos 2) h active (handle_all (pos 2) events (new_registry true))).1
        (codes "b")
      ≡ (contains active (codes "b")
          && is_gone (pos 2) (observe_all (pos 2) events nothing_seen h (codes "b"))))
    × ((k : Text)
        → absences
            (run_once (pos 2) h active (handle_all (pos 2) events (new_registry true))).0
            k
            (codes "b")
          ≡ observe
              (pos 2)
              (swept h active)
              (observe_all (pos 2) events nothing_seen)
              k
              (codes "b"))
run_once-stops-missing_example = run_once-stops-missing (pos 2) true events h active (codes "b")

update-reports-new_example :
    contains
      (ids_of (update h (web ∷ job ∷ []) (handle_all (pos 2) events (new_registry true))).1)
      (codes "b")
    ≡ (true
        && (contains (ids_of (web ∷ job ∷ [])) (codes "b")
            && is_unseen (observe_all (pos 2) events nothing_seen h (codes "b"))))
update-reports-new_example = update-reports-new (pos 2) true events h (web ∷ job ∷ []) (codes "b")
