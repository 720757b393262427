-- ===== src/Listener/Tracker.antt =====
-- packages/log-sump-listener/src/log_sump_listener/container_tracker.py: what one sweep of the
-- tracker stops. `stop_listener` is told of the containers in the order of the list.
pub mod Absences
pub mod History
mod Samples
use log_sump.Base.{ℕ, Bool, true, false, Option, none, some, List, [], ◌∷◌, if◌then◌else◌}
use log_sump.Base.Int.{ℤ, pos, ◌-ℤ◌, leb_ℤ}
use log_sump.Base.Text.{Text}
use log_sump.Base.Dict.{lookup}
use log_sump.Listener.Registry.{DaemonState, Registry, ContainerState, state_for, put_state, forget}

-- A container that is not in the registry counts as missing for long enough.
unfoldable pub misses : ℤ → Text → DaemonState → ℤ
misses missing_threshold id d = elim (lookup id d.containers) [
  | none ↦ missing_threshold
  | some c ↦ pos d.listing_seq -ℤ pos c.last_seen_seq
]

-- The loop over list(self._active_container_ids()).
unfoldable pub sweep : ℤ → Text → List Text → Registry → Registry × List Text
sweep missing_threshold docker_host [] r = (r, [])
sweep missing_threshold docker_host (id ∷ ids) r =
    let gone = leb_ℤ missing_threshold (misses missing_threshold id (state_for docker_host r)) in
    let (r', stopped) =
      sweep missing_threshold docker_host ids (if gone then forget docker_host id r else r) in
    (r', if gone then id ∷ stopped else stopped)

-- `state_for` leaves an entry for a daemon that had none.
unfoldable pub run_once : ℤ → Text → List Text → Registry → Registry × List Text
run_once missing_threshold docker_host active r =
    sweep missing_threshold docker_host active (put_state docker_host (state_for docker_host r) r)
