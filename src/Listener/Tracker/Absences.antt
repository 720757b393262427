-- ===== src/Listener/Tracker/Absences.antt =====
-- The listings a container was missing from, and the sweeps of
-- packages/log-sump-listener/src/log_sump_listener/container_tracker.py.
use log_sump.Base.{
  ℕ, ◌≡◌, refl, ap, ◌∙◌, Bool, true, false, ◌&&◌, Option, none, some, List, [], ◌∷◌, if◌then◌else◌,
  arith, Option-cases, inl, inr,
}
use log_sump.Base.Int.{ℤ, pos, ◌-ℤ◌, leb_ℤ}
use log_sump.Base.Text.{Text, ◌==◌, ==_refl, contains}
use log_sump.Base.Dict.{lookup, erase, lookup-insert, lookup-erase}
use log_sump.Listener.Registry.{
  ContainerRef, DaemonState, Registry, state_for, put_state, update, forget,
}
use log_sump.Listener.Registry.Updates.{
  IsValid, absences, absences_in, valid_at, listed_in-valid, state_for-put_state, update-state_for,
}
use log_sump.Listener.Tracker.{misses, sweep, run_once}

-- What the tracker is meant to decide: from the number of consecutive listings without a container,
-- or none for one that is not known.
abbrev pub is_gone : ℤ → Option ℕ → Bool
is_gone threshold a = elim a [ none ↦ true | some n ↦ leb_ℤ threshold (pos n) ]

misses-is_gone :
    (threshold : ℤ) (id : Text) (d : DaemonState)
    → valid_at id d ≡ true
    → leb_ℤ threshold (misses threshold id d) ≡ is_gone threshold (absences_in id d)
unfolding misses ◌-ℤ◌
misses-is_gone threshold id d v = ground (arith, v)

-- The daemon's entry without one container.
abbrev without : Text → DaemonState → DaemonState
without id d = record d { containers = erase id d.containers }

forget-state_for :
    (host h id : Text) (r : Registry)
    → state_for h (forget host id r)
      ≡ (if h == host then without id (state_for host r) else state_for h r)
unfolding forget state_for erase
forget-state_for host h id r = elim (Option-cases (lookup host r.daemons)) [
  | inl e ↦ ground (arith, e, ==_refl host)
  | inr (d, e) ↦ ground (arith, e, lookup-insert host h (without id d) r.daemons)
]

without-last_seen :
    (id j : Text) (d : DaemonState)
    → absences_in j (without id d) ≡ (if j == id then none else absences_in j d)
without-last_seen id j d = ground (arith, lookup-erase id j d.containers)

pub forget-absences :
    (host h id j : Text) (r : Registry)
    → absences (forget host id r) h j ≡ (if (h == host) && (j == id) then none else absences r h j)
forget-absences host h id j r =
    ground (arith, forget-state_for host h id r, without-last_seen id j (state_for host r))

without-valid :
    (id j : Text) (d : DaemonState) → valid_at j d ≡ true → valid_at j (without id d) ≡ true
without-valid id j d v = ground (arith, v, lookup-erase id j d.containers)

forget-IsValid : (host id : Text) (r : Registry) → IsValid r → IsValid (forget host id r)
forget-IsValid host id r valid h j = ground (
  arith,
  forget-state_for host h id r,
  without-valid id j (state_for host r) (valid host j),
  valid h j,
)

pub update-IsValid :
    (host : Text) (listing : List ContainerRef) (r : Registry)
    → IsValid r
    → IsValid (update host listing r).0
update-IsValid host listing r valid h j = ground (
  arith,
  update-state_for host h listing r,
  listed_in-valid listing (state_for host r) j (valid host j),
  valid h j,
)

-- The registry after a sweep of one container.
abbrev judged : ℤ → Text → Text → Registry → Registry
judged t host id r = if leb_ℤ t (misses t id (state_for host r)) then forget host id r else r

if-IsValid : (b : Bool) (r s : Registry) → IsValid r → IsValid s → IsValid (if b then r else s)
if-IsValid true r s v w = v
if-IsValid false r s v w = w

judged-IsValid : (t : ℤ) (host id : Text) (r : Registry) → IsValid r → IsValid (judged t host id r)
judged-IsValid t host id r valid =
    if-IsValid (leb_ℤ t (misses t id (state_for host r))) (forget host id r) r
      (forget-IsValid host id r valid) valid

judged-absences :
    (t : ℤ) (host h id j : Text) (r : Registry)
    → IsValid r
    → absences (judged t host id r) h j
      ≡ (if (h == host) && ((j == id) && is_gone t (absences r h j)) then none else absences r h j)
judged-absences t host h id j r valid =
    ground
      (arith, forget-absences host h id j r, misses-is_gone t id (state_for host r) (valid host id))

sweep-IsValid :
    (t : ℤ) (host : Text) (active : List Text) (r : Registry)
    → IsValid r
    → IsValid (sweep t host active r).0
unfolding sweep
sweep-IsValid t host [] r valid = valid
sweep-IsValid t host (id ∷ ids) r valid =
    sweep-IsValid t host ids (judged t host id r) (judged-IsValid t host id r valid)

sweep-absences :
    (t : ℤ) (host : Text) (active : List Text) (r : Registry) (h j : Text)
    → IsValid r
    → absences (sweep t host active r).0 h j ≡ (
        if (h == host) && (contains active j && is_gone t (absences r h j))
        then none
        else absences r h j)
unfolding sweep
sweep-absences t host [] r h j valid = ground arith
sweep-absences t host (id ∷ ids) r h j valid = ground (
  arith,
  judged-absences t host h id j r valid,
  sweep-absences t host ids (judged t host id r) h j (judged-IsValid t host id r valid),
)

sweep-stopped :
    (t : ℤ) (host : Text) (active : List Text) (r : Registry) (j : Text)
    → IsValid r
    → contains (sweep t host active r).1 j ≡ (contains active j && is_gone t (absences r host j))
unfolding sweep
sweep-stopped t host [] r j valid = refl
sweep-stopped t host (id ∷ ids) r j valid = ground (
  arith,
  ==_refl host,
  judged-absences t host host id j r valid,
  misses-is_gone t id (state_for host r) (valid host id),
  sweep-stopped t host ids (judged t host id r) j (judged-IsValid t host id r valid),
)

-- `state_for` leaves every entry as it is read.
touch-state_for :
    (host h : Text) (r : Registry)
    → state_for h (put_state host (state_for host r) r) ≡ state_for h r
touch-state_for host h r = ground (arith, state_for-put_state host h (state_for host r) r)

touch-IsValid :
    (host : Text) (r : Registry) → IsValid r → IsValid (put_state host (state_for host r) r)
touch-IsValid host r valid h j = ap (valid_at j) (touch-state_for host h r) ∙ valid h j

pub run_once-IsValid :
    (t : ℤ) (host : Text) (active : List Text) (r : Registry)
    → IsValid r
    → IsValid (run_once t host active r).0
unfolding run_once
run_once-IsValid t host active r valid =
    sweep-IsValid t host active (put_state host (state_for host r) r) (touch-IsValid host r valid)

pub run_once-absences :
    (t : ℤ) (host : Text) (active : List Text) (r : Registry) (h j : Text)
    → IsValid r
    → absences (run_once t host active r).0 h j ≡ (
        if (h == host) && (contains active j && is_gone t (absences r h j))
        then none
        else absences r h j)
unfolding run_once
run_once-absences t host active r h j valid = ground (
  arith,
  ap (absences_in j) (touch-state_for host h r),
  sweep-absences t host active (put_state host (state_for host r) r) h j
      (touch-IsValid host r valid),
)

pub run_once-stopped :
    (t : ℤ) (host : Text) (active : List Text) (r : Registry) (j : Text)
    → IsValid r
    → contains (run_once t host active r).1 j ≡ (contains active j && is_gone t (absences r host j))
unfolding run_once
run_once-stopped t host active r j valid = ground (
  arith,
  ap (absences_in j) (touch-state_for host host r),
  sweep-stopped t host active (put_state host (state_for host r) r) j (touch-IsValid host r valid),
)
