-- ===== src/Listener/Tracker/History.antt =====
-- The registry and the tracker, packages/log-sump-listener/src/log_sump_listener/registry.py and
-- container_tracker.py, under any sequence of listings and sweeps.
use mathlib.Core.Option
use log_sump.Base.{
  ℕ, suc, ◌≡◌, refl, ap, ◌∙◌, Bool, true, false, ◌&&◌, Option, none, some, List, [], ◌∷◌,
  if◌then◌else◌, arith, Option-cases,
}
use log_sump.Base.Int.{ℤ, leb_ℤ}
use log_sump.Base.Text.{Text, ◌==◌, contains}
use log_sump.Base.Dict.{lookup}
use log_sump.Listener.Registry.{ContainerRef, Registry, state_for, update, forget}
use log_sump.Listener.Registry.Updates.{
  ids_of, IsValid, absences, listed_in-absences, update-state_for, record_refs-new,
}
use log_sump.Listener.Tracker.{misses, sweep, run_once}
use log_sump.Listener.Tracker.Absences.{
  is_gone, update-IsValid, run_once-IsValid, run_once-absences, run_once-stopped,
}

-- What befalls the registry: a listing of a daemon's containers, or a sweep of its listeners.
pub data Event : Type 0 where
  listed : Text → List ContainerRef → Event
  swept : Text → List Text → Event

abbrev pub handle : ℤ → Event → Registry → Registry
handle t (listed host listing) r = (update host listing r).0
handle t (swept host active) r = (run_once t host active r).0

abbrev pub handle_all : ℤ → List Event → Registry → Registry
handle_all t [] r = r
handle_all t (e ∷ es) r = handle_all t es (handle t e r)

-- In how many consecutive listings a container of a daemon was missing; none is one that was never
-- listed, or was stopped since.
abbrev pub Missing : Type 0
Missing = Text → Text → Option ℕ

abbrev pub observe : ℤ → Event → Missing → Missing
observe t (listed host listing) m h j =
    if h == host
    then (if contains (ids_of listing) j then some 0 else Option.map suc (m h j))
    else m h j
observe t (swept host active) m h j =
    if (h == host) && (contains active j && is_gone t (m h j)) then none else m h j

abbrev pub observe_all : ℤ → List Event → Missing → Missing
observe_all t [] m = m
observe_all t (e ∷ es) m = observe_all t es (observe t e m)

abbrev pub nothing_seen : Missing
nothing_seen h j = none

abbrev pub new_registry : Bool → Registry
new_registry notifies = record { daemons = []; notifies = notifies }

new_registry-absences : (n : Bool) (h j : Text) → absences (new_registry n) h j ≡ none
unfolding state_for lookup
new_registry-absences n h j = refl

pub new_registry-IsValid : (n : Bool) → IsValid (new_registry n)
unfolding state_for lookup
new_registry-IsValid n h j = refl

handle-IsValid : (t : ℤ) (e : Event) (r : Registry) → IsValid r → IsValid (handle t e r)
handle-IsValid t (listed host listing) r valid = update-IsValid host listing r valid
handle-IsValid t (swept host active) r valid = run_once-IsValid t host active r valid

handle-observe :
    (t : ℤ) (e : Event) (r : Registry) (m : Missing)
    → IsValid r
    → ((h j : Text) → absences r h j ≡ m h j)
    → (h j : Text) → absences (handle t e r) h j ≡ observe t e m h j
handle-observe t (listed host listing) r m valid same h j = ground (
  arith,
  update-state_for host h listing r,
  listed_in-absences listing (state_for host r) j (valid host j),
  same h j,
)
handle-observe t (swept host active) r m valid same h j =
    ground (arith, run_once-absences t host active r h j valid, same h j)

handle_all-observe :
    (t : ℤ) (es : List Event) (r : Registry) (m : Missing)
    → IsValid r
    → ((h j : Text) → absences r h j ≡ m h j)
    → (h j : Text) → absences (handle_all t es r) h j ≡ observe_all t es m h j
handle_all-observe t [] r m valid same = same
handle_all-observe t (e ∷ es) r m valid same =
    handle_all-observe t es (handle t e r) (observe t e m) (handle-IsValid t e r valid)
      (handle-observe t e r m valid same)

-- Every sequence of listings and sweeps leads from a registry in which no container was last seen
-- later than the latest listing of its daemon to another such registry.
pub handle_all-IsValid :
    (t : ℤ) (es : List Event) (r : Registry) → IsValid r → IsValid (handle_all t es r)
handle_all-IsValid t [] r valid = valid
handle_all-IsValid t (e ∷ es) r valid =
    handle_all-IsValid t es (handle t e r) (handle-IsValid t e r valid)

-- After any sequence of listings and sweeps of any daemons from the empty registry, a sweep of a
-- daemon stops exactly those active containers that were never listed since they were last stopped,
-- or were missing from at least `t` consecutive listings of that daemon, whatever the other daemons
-- did; and it keeps the counts of the containers it does not stop.
pub run_once-stops-missing :
    (t : ℤ) (n : Bool) (es : List Event) (host : Text) (active : List Text) (j : Text)
    → (contains (run_once t host active (handle_all t es (new_registry n))).1 j
        ≡ (contains active j && is_gone t (observe_all t es nothing_seen host j)))
      × ((h : Text)
          → absences (run_once t host active (handle_all t es (new_registry n))).0 h j
            ≡ observe t (swept host active) (observe_all t es nothing_seen) h j)
run_once-stops-missing t n es host active j =
    let valid = handle_all-IsValid t es (new_registry n) (new_registry-IsValid n) in
    let counted =
      handle_all-observe t es (new_registry n) nothing_seen (new_registry-IsValid n)
        (new_registry-absences n) in
    (
      run_once-stopped t host active (handle_all t es (new_registry n)) j valid
          ∙ ap (λ a. contains active j && is_gone t a) (counted host j),
      λ h.
          handle-observe t (swept host active) (handle_all t es (new_registry n))
            (observe_all t es nothing_seen) valid counted h j,
    )

forget-notifies : (host id : Text) (r : Registry) → (forget host id r).notifies ≡ r.notifies
unfolding forget
forget-notifies host id r = ground (arith, Option-cases (lookup host r.daemons))

sweep-notifies :
    (t : ℤ) (host : Text) (active : List Text) (r : Registry)
    → (sweep t host active r).0.notifies ≡ r.notifies
unfolding sweep
sweep-notifies t host [] r = refl
sweep-notifies t host (id ∷ ids) r =
    let gone = leb_ℤ t (misses t id (state_for host r)) in
    ground (
      arith,
      sweep-notifies t host ids (if gone then forget host id r else r),
      forget-notifies host id r,
    )

handle-notifies : (t : ℤ) (e : Event) (r : Registry) → (handle t e r).notifies ≡ r.notifies
unfolding update run_once
handle-notifies t (listed host listing) r = refl
handle-notifies t (swept host active) r = sweep-notifies t host active _

handle_all-notifies :
    (t : ℤ) (es : List Event) (r : Registry) → (handle_all t es r).notifies ≡ r.notifies
handle_all-notifies t [] r = refl
handle_all-notifies t (e ∷ es) r = handle_all-notifies t es (handle t e r) ∙ handle-notifies t e r

abbrev pub is_unseen : Option ℕ → Bool
is_unseen a = elim a [ none ↦ true | some n ↦ false ]

pub update-new :
    (host : Text) (listing : List ContainerRef) (r : Registry) (j : Text)
    → contains (ids_of (update host listing r).1) j
      ≡ (r.notifies && (contains (ids_of listing) j && is_unseen (absences r host j)))
unfolding update
update-new host listing r j =
    let d = state_for host r in
    ground (arith, record_refs-new (suc d.listing_seq) listing d.containers j)

-- After any sequence of listings and sweeps from the empty registry, a listing of a daemon reports
-- a container as new exactly if a callback is registered, the container is listed, and it was never
-- listed since the tracker last stopped it.
pub update-reports-new :
    (t : ℤ) (n : Bool) (es : List Event) (host : Text) (listing : List ContainerRef) (j : Text)
    → contains (ids_of (update host listing (handle_all t es (new_registry n))).1) j
      ≡ (n && (contains (ids_of listing) j && is_unseen (observe_all t es nothing_seen host j)))
update-reports-new t n es host listing j = ground (
  arith,
  update-new host listing (handle_all t es (new_registry n)) j,
  handle_all-notifies t es (new_registry n),
  handle_all-observe t es (new_registry n) nothing_seen (new_registry-IsValid n)
      (new_registry-absences n) host j,
)
