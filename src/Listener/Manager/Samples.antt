-- ===== src/Listener/Manager/Samples.antt =====
-- Two spawns of one container that both pass the first test: the second finds the task of the first.
use log_sump.Base.{ℕ, ◌≤◌, ◌≡◌, refl, some, [], ◌∷◌}
use log_sump.Base.Text.{Text, codes, text_discrete}
use log_sump.Base.Dict.{lookup, insert}
use log_sump.Listener.Manager.{running, new_manager, spawn}
use log_sump.Listener.Manager.Steps.{Loop, new_loop, asks, enters, Steps, here, next}
use log_sump.Listener.Manager.Unique.{Steps-one_listener}

abbrev web : Text
web = codes "a"

abbrev first : ℕ
first = 0

abbrev asked : Loop
asked = record (new_loop 2) { waiting = web ∷ [] }

abbrev asked_twice : Loop
asked_twice = record (new_loop 2) { waiting = web ∷ web ∷ [] }

abbrev entered : Loop
entered = record { manager = spawn web new_manager; waiting = web ∷ []; permits = 1; held = 1 }

abbrev entered_twice : Loop
entered_twice = record {
  manager = spawn web (spawn web new_manager);
  waiting = [];
  permits = 0;
  held = 2;
}

reached : Steps (new_loop 2) entered_twice
unfolding lookup
reached = next (new_loop 2) asked entered_twice (asks (new_loop 2) web refl) (
    next asked asked_twice entered_twice (asks asked web refl) (
      next asked_twice entered entered_twice (enters asked_twice web [] (web ∷ []) 1 refl refl) (
        next entered entered_twice entered_twice (enters entered web [] [] 0 refl refl)
          (here entered_twice))))

created_test : (spawn web (spawn web new_manager)).created ≡ 1
unfolding spawn lookup insert text_discrete
created_test = refl

listens_test : entered_twice.manager.phase 0 ≡ running web
unfolding spawn lookup insert text_discrete
listens_test = refl

recorded_test : lookup web entered_twice.manager.tasks ≡ some 0
unfolding spawn lookup insert text_discrete
recorded_test = refl

Steps-one_listener_example :
    (first ≡ first) × (lookup web entered_twice.manager.tasks ≡ some 0) × (entered_twice.held ≤ 2)
Steps-one_listener_example =
    Steps-one_listener 2 entered_twice 0 0 web reached listens_test listens_test
