-- ===== src/Listener/ContainersListing/Complete.antt =====
-- What an outage of a daemon does to the registry, through
-- packages/log-sump-listener/src/log_sump_listener/containers_listing.py.
use log_sump.Base.{◌≡◌, refl, ◌∙◌, inl, inr, ◌⊎◌, true, false, some, List, [], ◌∷◌, All, arith}
use log_sump.Base.Int.{ℤ, pos, ◌-ℤ◌, ◌≤ℤ◌, leb_ℤ}
use log_sump.Base.Text.{Text, ==_refl, contains}
use log_sump.Base.Errors.{Error, Result, ok, err, is_transport_or_value_error}
use log_sump.Common.Transport.{ExecResult}
use log_sump.Listener.ContainerListener.{Library}
use log_sump.Listener.Registry.{ContainerRef, Registry, DaemonState, state_for, update}
use log_sump.Listener.Registry.Updates.{ids_of, last_seen, listed_in-last_seen, update-state_for}
use log_sump.Listener.Tracker.{misses}
use log_sump.Listener.ContainersListing.{list_containers, listing_cycle, run_containers_listing}

-- The container was seen in the last listing of its daemon.
abbrev IsFresh : Text → DaemonState → Type 0
IsFresh id d = last_seen id d.containers ≡ some d.listing_seq

IsFresh-misses : (t : ℤ) (id : Text) (d : DaemonState) → IsFresh id d → misses t id d ≡ pos 0
unfolding misses ◌-ℤ◌
IsFresh-misses t id d h = ground (arith, h)

-- A cycle that raises TransportError or ValueError, as when the command returns another exit status
-- than 0, or a line of its output is no JSON.
abbrev pub FailsToList : Library → Result ExecResult → Type 0
FailsToList lib ran =
    (e : Error) × (list_containers lib ran ≡ err e) × (is_transport_or_value_error e ≡ true)

abbrev pub Lists : Library → Text → Result ExecResult → Type 0
Lists lib id ran =
    (refs : List ContainerRef) × (list_containers lib ran ≡ ok refs)
    × (contains (ids_of refs) id ≡ true)

-- The set is iterated in some order: no container is left out.
abbrev pub KeepsIds : (List ContainerRef → List ContainerRef) → Text → Type 0
KeepsIds order id =
    (refs : List ContainerRef) → contains (ids_of (order refs)) id ≡ contains (ids_of refs) id

module _ (lib : Library) (order : List ContainerRef → List ContainerRef) (host id : Text)
    (keeps : KeepsIds order id) where
  abbrev AsListed : Registry → Type 0
  AsListed r = IsFresh id (state_for host r)

  abbrev After : Result Registry → Type 0
  After x = (r : Registry) × (x ≡ ok r) × AsListed r

  update-AsListed :
      (refs : List ContainerRef) (r : Registry)
      → contains (ids_of refs) id ≡ true
      → AsListed (update host refs r).0
  update-AsListed refs r h =
      let d = state_for host r in
      ground
        (arith, h, update-state_for host host refs r, ==_refl host, listed_in-last_seen refs d id)

  lists_lem :
      (ran : Result ExecResult) (later : List (Result ExecResult)) (r : Registry)
      → Lists lib id ran
      → ((s : Registry) → AsListed s → After (run_containers_listing lib order host later s))
      → After (run_containers_listing lib order host (ran ∷ later) r)
  unfolding run_containers_listing listing_cycle
  lists_lem ran later r (refs, h, k) rest =
      rw h (rest (update host (order refs) r).0 (update-AsListed (order refs) r (keeps refs ∙ k)))

  run-After :
      (later : List (Result ExecResult)) (r : Registry)
      → All (λ ran. Lists lib id ran ⊎ FailsToList lib ran) later
      → AsListed r
      → After (run_containers_listing lib order host later r)
  unfolding run_containers_listing listing_cycle
  run-After [] r h fresh = (r, refl, fresh)
  run-After (ran ∷ later) r (inl l, hs) fresh =
      lists_lem ran later r l (λ s f. run-After later s hs f)
  run-After (ran ∷ later) r (inr (e, h, k), hs) fresh = rw h (rw k (run-After later r hs fresh))

  -- The registry of a loop that has not ended does not count the container as missing.
  abbrev pub IsPresent : ℤ → Result Registry → Type 0
  IsPresent missing_threshold x =
      (r : Registry) × (x ≡ ok r)
      × (leb_ℤ missing_threshold (misses missing_threshold id (state_for host r)) ≡ false)

  -- Once a container was listed, it is not taken for missing, for any threshold from 1 on, as long as
  -- every later cycle lists it or raises TransportError or ValueError, as when the command returns
  -- another exit status than 0, or a line of its output is no JSON: such a cycle neither ends the loop
  -- nor counts against a container, however many come in a row.
  pub run_containers_listing-IsPresent :
      (missing_threshold : ℤ) (ran : Result ExecResult) (later : List (Result ExecResult))
      (r : Registry)
      → pos 1 ≤ℤ missing_threshold
      → Lists lib id ran
      → All (λ ran. Lists lib id ran ⊎ FailsToList lib ran) later
      → IsPresent missing_threshold (run_containers_listing lib order host (ran ∷ later) r)
  run_containers_listing-IsPresent t ran later r h l hs =
      let (s, e, fresh) = lists_lem ran later r l (λ s f. run-After later s hs f) in
      (s, e, ground (arith, h, IsFresh-misses t id (state_for host s) fresh))
