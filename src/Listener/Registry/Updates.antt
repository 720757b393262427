-- ===== src/Listener/Registry/Updates.antt =====
-- What a listing changes in the registry of
-- packages/log-sump-listener/src/log_sump_listener/registry.py.
use mathlib.Core.Option
use log_sump.Base.{
  ℕ, suc, ◌-◌, ◌≡◌, refl, Bool, true, false, not, ◌&&◌, Option, none, some, List, [], ◌∷◌, map,
  if◌then◌else◌, arith, leb,
}
use log_sump.Base.Text.{Text, ◌==◌, contains}
use log_sump.Base.Dict.{Dict, lookup, insert, lookup-insert}
use log_sump.Listener.Registry.{
  ContainerRef, ContainerState, DaemonState, Registry, seen, state_for, put_state, record_refs,
  update,
}

abbrev pub ids_of : List ContainerRef → List Text
ids_of refs = map (λ r. r.container_id) refs

abbrev pub is_known : Text → Dict ContainerState → Bool
is_known id containers = elim (lookup id containers) [ none ↦ false | some c ↦ true ]

-- The last listing in which a container was seen.
abbrev pub last_seen : Text → Dict ContainerState → Option ℕ
last_seen id containers = Option.map (λ c. c.last_seen_seq) (lookup id containers)

record_refs-last_seen :
    (seq : ℕ) (listing : List ContainerRef) (containers : Dict ContainerState) (id : Text)
    → last_seen id (record_refs seq listing containers).0
      ≡ (if contains (ids_of listing) id then some seq else last_seen id containers)
unfolding record_refs
record_refs-last_seen seq [] containers id = refl
record_refs-last_seen seq (ref ∷ listing) containers id = ground (
  arith,
  record_refs-last_seen seq listing (insert ref.container_id (seen seq ref) containers) id,
  lookup-insert ref.container_id id (seen seq ref) containers,
)

-- A container is reported as new when it is listed and was not known.
pub record_refs-new :
    (seq : ℕ) (listing : List ContainerRef) (containers : Dict ContainerState) (id : Text)
    → contains (ids_of (record_refs seq listing containers).1) id
      ≡ (contains (ids_of listing) id && not (is_known id containers))
unfolding record_refs
record_refs-new seq [] containers id = refl
record_refs-new seq (ref ∷ listing) containers id = ground (
  arith,
  record_refs-new seq listing (insert ref.container_id (seen seq ref) containers) id,
  lookup-insert ref.container_id id (seen seq ref) containers,
)

-- The containers a daemon's registry entry knows keep a number no later than the last listing.
abbrev pub valid_at : Text → DaemonState → Bool
valid_at id d = elim (last_seen id d.containers) [ none ↦ true | some s ↦ leb s d.listing_seq ]

abbrev pub IsValid : Registry → Type 0
IsValid r = (docker_host id : Text) → valid_at id (state_for docker_host r) ≡ true

-- In how many listings since its last one a container was missing; none is one not known.
abbrev pub absences_in : Text → DaemonState → Option ℕ
absences_in id d = Option.map (λ s. d.listing_seq - s) (last_seen id d.containers)

abbrev pub absences : Registry → Text → Text → Option ℕ
absences r docker_host id = absences_in id (state_for docker_host r)

pub state_for-put_state :
    (host h : Text) (d : DaemonState) (r : Registry)
    → state_for h (put_state host d r) ≡ (if h == host then d else state_for h r)
unfolding state_for
state_for-put_state host h d r = ground (arith, lookup-insert host h d r.daemons)

-- The daemon's entry after a listing.
abbrev pub listed_in : List ContainerRef → DaemonState → DaemonState
listed_in listing d = record {
  listing_seq = suc d.listing_seq;
  containers = (record_refs (suc d.listing_seq) listing d.containers).0;
}

pub listed_in-last_seen :
    (listing : List ContainerRef) (d : DaemonState) (id : Text)
    → last_seen id (listed_in listing d).containers ≡ (
        if contains (ids_of listing) id
        then some (suc d.listing_seq)
        else last_seen id d.containers)
listed_in-last_seen listing d id = record_refs-last_seen (suc d.listing_seq) listing d.containers id

pub listed_in-valid :
    (listing : List ContainerRef) (d : DaemonState) (id : Text)
    → valid_at id d ≡ true
    → valid_at id (listed_in listing d) ≡ true
listed_in-valid listing d id v = ground (arith, v, listed_in-last_seen listing d id)

pub listed_in-absences :
    (listing : List ContainerRef) (d : DaemonState) (id : Text)
    → valid_at id d ≡ true
    → absences_in id (listed_in listing d)
      ≡ (if contains (ids_of listing) id then some 0 else Option.map suc (absences_in id d))
listed_in-absences listing d id v = ground (arith, v, listed_in-last_seen listing d id)

pub update-state_for :
    (docker_host h : Text) (listing : List ContainerRef) (r : Registry)
    → state_for h (update docker_host listing r).0
      ≡ (if h == docker_host then listed_in listing (state_for docker_host r) else state_for h r)
unfolding update
update-state_for docker_host h listing r =
    state_for-put_state docker_host h (listed_in listing (state_for docker_host r)) r
