-- ===== src/Listener/Registry.antt =====
-- packages/log-sump-listener/src/log_sump_listener/registry.py: the latest listing of each daemon.
pub mod Updates
use log_sump.Base.{ℕ, suc, Bool, true, Option, none, some, List, [], ◌∷◌, map, if◌then◌else◌}
use log_sump.Base.Text.{Text}
use log_sump.Base.Dict.{Dict, lookup, insert, erase}

pub record ContainerRef : Type 0 where
  pub container_id : Text
  pub container_name : Text

pub record ContainerState : Type 0 where
  pub ref : ContainerRef
  pub last_seen_seq : ℕ

pub record DaemonState : Type 0 where
  pub listing_seq : ℕ
  pub containers : Dict ContainerState

abbrev pub new_daemon : DaemonState
new_daemon = record { listing_seq = 0; containers = [] }

-- `notifies` says whether on_new_container has registered a callback.
pub record Registry : Type 0 where
  pub daemons : Dict DaemonState
  pub notifies : Bool

unfoldable pub on_new_container : Registry → Registry
on_new_container r = record r { notifies = true }

-- self._daemons.setdefault(docker_host, DaemonState()): what it returns, and what it leaves.
unfoldable pub state_for : Text → Registry → DaemonState
state_for docker_host r = elim (lookup docker_host r.daemons) [ none ↦ new_daemon | some d ↦ d ]

abbrev pub put_state : Text → DaemonState → Registry → Registry
put_state docker_host d r = record r { daemons = insert docker_host d r.daemons }

abbrev seen : ℕ → ContainerRef → ContainerState
seen seq ref = record { ref = ref; last_seen_seq = seq }

-- The loop of `update` over the listing: the containers, and the refs that were not known.
unfoldable pub record_refs :
    ℕ → List ContainerRef → Dict ContainerState → Dict ContainerState × List ContainerRef
record_refs seq [] containers = (containers, [])
record_refs seq (ref ∷ listing) containers =
    let (containers', new_refs) =
      record_refs seq listing (insert ref.container_id (seen seq ref) containers) in
    (
      containers',
      elim (lookup ref.container_id containers) [ none ↦ ref ∷ new_refs | some old ↦ new_refs ],
    )

-- The registry after `update`, and the refs for which it calls the callback, in order.
unfoldable pub update : Text → List ContainerRef → Registry → Registry × List ContainerRef
update docker_host listing r =
    let d = state_for docker_host r in
    let (containers, new_refs) = record_refs (suc d.listing_seq) listing d.containers in
    (
      put_state docker_host (record { listing_seq = suc d.listing_seq; containers = containers }) r,
      if r.notifies then new_refs else [],
    )

-- A daemon that is not there is left so.
unfoldable pub forget : Text → Text → Registry → Registry
forget docker_host container_id r = elim (lookup docker_host r.daemons) [
  | none ↦ r
  | some d ↦ put_state docker_host (record d { containers = erase container_id d.containers }) r
]
