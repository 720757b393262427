-- ===== src/Listener/Wiring.antt =====
-- packages/log-sump-listener/src/log_sump_listener/app.py: the loops that `run` starts for each daemon,
-- and the dispatcher of new containers.
pub mod Built
pub mod Routed
mod Samples
use log_sump.Base.{Bool, true, false, Option, none, some, List, [], ◌∷◌, ◌++◌, if◌then◌else◌}
use log_sump.Base.Int.{ℤ}
use log_sump.Base.Text.{Text}
use log_sump.Base.Dict.{Dict, lookup, insert}
use log_sump.Base.Errors.{Result, ok, err, ◌>>=◌, or_raise, key_error}
use log_sump.Common.Schema.{Float}
use log_sump.Common.Config.{
  DaemonConfig, MetricsSource, Settings, enabled_daemons, effective_system_stats_interval_s,
}
use log_sump.Common.Transport.{Transport, build_transport}
use log_sump.Listener.Manager.{Manager, new_manager}

-- The coroutines run_containers_listing, ContainerTracker.run_forever, run_container_stats and
-- run_system_stats of a daemon, with what they are given.
pub data Task : Type 0 where
  listing_task : (docker_host : Text) (transport : Transport) (listing_interval_s : Float) → Task
  tracker_task :
      (docker_host : Text) (tracker_interval_s : Float) (missing_threshold_cycles : ℤ) → Task
  container_stats_task :
      (docker_host : Text) (transport : Transport) (stats_interval_s : Float) → Task
  system_stats_task :
      (docker_host : Text) (transport : Transport) (stats_interval_s : Float)
      (system_metrics_source : MetricsSource)
      → Task

unfoldable pub run_daemon : DaemonConfig → Settings → Transport → List Task
run_daemon daemon settings transport =
    listing_task daemon.id transport settings.listener.listing_interval_s
    ∷ tracker_task daemon.id settings.listener.tracker_interval_s
        settings.listener.missing_threshold_cycles
    ∷ (if settings.metrics.enabled
        then container_stats_task daemon.id transport settings.listener.stats_interval_s
          ∷ (if settings.metrics.system_enabled
              then system_stats_task daemon.id transport
                  (effective_system_stats_interval_s settings.listener)
                  settings.metrics.system_metrics_source
                ∷ []
              else [])
        else [])

-- A ListenerManager with its own arguments.
pub record Listeners : Type 0 where
  pub docker_host : Text
  pub transport : Transport
  pub manager : Manager

-- {daemon.id: value(daemon) for daemon in daemons}, from a dict on: of two daemons with one id, the
-- later stays.
unfoldable pub by_daemon {ℓ} :
    {V : Type ℓ} → (DaemonConfig → Result V) → List DaemonConfig → Dict V → Result (Dict V)
by_daemon value [] d = ok d
by_daemon value (daemon ∷ daemons) d =
    value daemon >>= λ v. by_daemon value daemons (insert daemon.id v d)

-- ListenerManager(daemon.id, transports_by_daemon[daemon.id], ...)
abbrev pub listeners_for : Dict Transport → DaemonConfig → Result Listeners
listeners_for transports daemon = or_raise (lookup daemon.id transports) key_error >>= λ transport.
    ok (record { docker_host = daemon.id; transport = transport; manager = new_manager })

-- The loops of every daemon, each with transports_by_daemon[daemon.id] and
-- listeners_by_daemon[daemon.id].
unfoldable pub run_daemons :
    Settings → Dict Transport → Dict Listeners → List DaemonConfig → Result (List Task)
run_daemons settings transports listeners [] = ok []
run_daemons settings transports listeners (daemon ∷ daemons) =
    or_raise (lookup daemon.id transports) key_error >>= λ transport.
    or_raise (lookup daemon.id listeners) key_error >>= λ _.
    run_daemons settings transports listeners daemons >>= λ tasks.
    ok (run_daemon daemon settings transport ++ tasks)

-- What `run` has before it waits: the listeners that the dispatcher finds, and the loops. Without an
-- enabled daemon it returns at once, with no loop.
unfoldable pub run : Settings → Result (Dict Listeners × List Task)
run settings =
    by_daemon (λ daemon. ok (build_transport daemon)) (enabled_daemons settings) []
    >>= λ transports.
        by_daemon (listeners_for transports) (enabled_daemons settings) [] >>= λ listeners.
        run_daemons settings transports listeners (enabled_daemons settings) >>= λ tasks.
        ok (listeners, tasks)

-- listeners_by_daemon[docker_host], whose `spawn` the callback of new containers calls.
unfoldable pub on_new_container : Dict Listeners → Text → Result Listeners
on_new_container listeners docker_host = or_raise (lookup docker_host listeners) key_error
