-- ===== src/Listener/Wiring/Routed.antt =====
-- The dispatcher of packages/log-sump-listener/src/log_sump_listener/app.py finds the listeners of every
-- daemon whose loops run.
use log_sump.Base.{
  Bool-elim, Bool-cases, ◌≡◌, refl, ap, ◌∙◌, inl, inr, true, some, map, map-append, filterb, List,
  [], ◌∷◌, ◌++◌, All, All-append, if◌then◌else◌, arith,
}
use log_sump.Base.Text.{Text}
use log_sump.Base.Dict.{Dict, lookup, lookup-nil}
use log_sump.Base.Errors.{Result, ok, err}
use log_sump.Common.Config.{
  DaemonConfig, MetricsConfig, Settings, enabled_daemons, effective_system_stats_interval_s,
}
use log_sump.Common.Transport.{Transport, build_transport}
use log_sump.Listener.Manager.{new_manager}
use log_sump.Listener.Wiring.Built.{
  has, AllSound, Gives, by_daemon-IsBuilt, each_daemon, All-map, has-lookup,
}
use log_sump.Listener.Wiring.{
  Task, listing_task, tracker_task, container_stats_task, system_stats_task, run_daemon, Listeners,
  listeners_for, run_daemons, run, on_new_container,
}

-- The daemon of a loop, and its transport, if it has one.
abbrev pub host_of : Task → Text
host_of (listing_task host t i) = host
host_of (tracker_task host i m) = host
host_of (container_stats_task host t i) = host
host_of (system_stats_task host t i m) = host

abbrev pub Uses : Transport → Task → Type 0
Uses transport (listing_task host t i) = t ≡ transport
Uses transport (tracker_task host i m) = Unit
Uses transport (container_stats_task host t i) = t ≡ transport
Uses transport (system_stats_task host t i m) = t ≡ transport

-- The dispatcher finds listeners for the loop's daemon, which reach it as the loop does.
abbrev pub IsRouted : Dict Listeners → Task → Type 0
IsRouted listeners task =
    (l : Listeners) × (on_new_container listeners (host_of task) ≡ ok l)
    × (l.docker_host ≡ host_of task)
    × Uses l.transport task

-- The kinds of loops, and which a daemon has by the settings: the last two are for metrics.
pub data Loop : Type 0 where
  listing tracker container_stats system_stats : Loop

abbrev loop_of : Task → Loop
loop_of (listing_task host t i) = listing
loop_of (tracker_task host i m) = tracker
loop_of (container_stats_task host t i) = container_stats
loop_of (system_stats_task host t i m) = system_stats

abbrev pub start_of : Task → Text × Loop
start_of task = (host_of task, loop_of task)

abbrev pub loops : MetricsConfig → List Loop
loops metrics =
    listing
    ∷ tracker
    ∷ (if metrics.enabled
        then (if metrics.system_enabled
            then container_stats ∷ system_stats ∷ []
            else container_stats ∷ [])
        else [])

abbrev pub starts : MetricsConfig → List DaemonConfig → List (Text × Loop)
starts metrics [] = []
starts metrics (d ∷ daemons) =
    if d.enabled
    then map (λ l. (d.id, l)) (loops metrics) ++ starts metrics daemons
    else starts metrics daemons

-- The loops of the enabled daemons are started, and no others, and the dispatcher serves them.
abbrev pub AllRouted : Settings → Result (Dict Listeners × List Task) → Type 0
AllRouted settings (err e) = ⊥
AllRouted settings (ok (listeners, tasks)) =
    (map start_of tasks ≡ starts settings.metrics settings.daemons) × All (IsRouted listeners) tasks

-- The listeners of a daemon use its transport.
abbrev IsWired : Dict Transport → Text → Listeners → Type 0
IsWired transports k l = (l.docker_host ≡ k) × (lookup k transports ≡ some l.transport)

listeners_for-Gives :
    (transports : Dict Transport) (daemon : DaemonConfig)
    → has daemon.id transports ≡ true
    → Gives (IsWired transports) (listeners_for transports) daemon
listeners_for-Gives transports daemon h =
    let (t, e) = has-lookup daemon.id transports h in
    (record { docker_host = daemon.id; transport = t; manager = new_manager }, rw e refl, (refl, e))

abbrev AreAllThere : Dict Transport → Dict Listeners → Text → Type 0
AreAllThere transports listeners k = (has k transports ≡ true) × (has k listeners ≡ true)

module _ (settings : Settings) (transports : Dict Transport) (listeners : Dict Listeners) where
  abbrev AreThere : DaemonConfig → Type 0
  AreThere daemon = AreAllThere transports listeners daemon.id

  -- The loops of these daemons.
  abbrev all_loops : List DaemonConfig → List (Text × Loop)
  all_loops [] = []
  all_loops (d ∷ daemons) = map (λ l. (d.id, l)) (loops settings.metrics) ++ all_loops daemons

  abbrev AllGood : List DaemonConfig → Result (List Task) → Type 0
  AllGood daemons x =
      (tasks : List Task) × (x ≡ ok tasks)
      × (map start_of tasks ≡ all_loops daemons)
      × All (IsRouted listeners) tasks

  run_daemon-starts :
      (daemon : DaemonConfig) (transport : Transport)
      → map start_of (run_daemon daemon settings transport)
        ≡ map (λ l. (daemon.id, l)) (loops settings.metrics)
  unfolding run_daemon
  run_daemon-starts daemon transport = elim (Bool-cases settings.metrics.enabled) [
    | inl e ↦ rw e (elim (Bool-cases settings.metrics.system_enabled) [
      | inl f ↦ rw f refl
      | inr f ↦ rw f refl
    ])
    | inr e ↦ rw e refl
  ]

  run_daemon-IsRouted :
      (daemon : DaemonConfig) (l : Listeners)
      → lookup daemon.id listeners ≡ some l
      → l.docker_host ≡ daemon.id
      → All (IsRouted listeners) (run_daemon daemon settings l.transport)
  unfolding run_daemon on_new_container
  run_daemon-IsRouted daemon l h k =
      let found : on_new_container listeners daemon.id ≡ ok l = rw h refl in
      let stats = container_stats_task daemon.id l.transport settings.listener.stats_interval_s in
      let system =
        system_stats_task daemon.id l.transport
          (effective_system_stats_interval_s settings.listener)
          settings.metrics.system_metrics_source in
      (
        (l, found, k, refl),
        (
          (l, found, k, tt),
          Bool-elim
              (λ b. All (IsRouted listeners) (
                if b
                then stats ∷ (if settings.metrics.system_enabled then system ∷ [] else [])
                else []))
              (
                (l, found, k, refl),
                Bool-elim (λ b. All (IsRouted listeners) (if b then system ∷ [] else []))
                    ((l, found, k, refl), tt) tt settings.metrics.system_enabled,
              )
              tt settings.metrics.enabled,
        ),
      )

  run_daemons-AllGood :
      (daemons : List DaemonConfig)
      → All AreThere daemons
      → AllSound (IsWired transports) listeners
      → AllGood daemons (run_daemons settings transports listeners daemons)
  unfolding run_daemons
  run_daemons-AllGood [] h s = ([], refl, refl, tt)
  run_daemons-AllGood (daemon ∷ daemons) ((ht, hl), h) s =
      let (l, e) = has-lookup daemon.id listeners hl in
      let (host_eq, t) = s daemon.id l e in
      let (tasks, k, starts_eq, all) = run_daemons-AllGood daemons h s in
      rw t (
        rw e (
          rw k (
            run_daemon daemon settings l.transport ++ tasks,
            refl,
            map-append start_of (run_daemon daemon settings l.transport) tasks
                ∙ ap (λ a. a ++ map start_of tasks) (run_daemon-starts daemon l.transport)
                ∙ ap (λ b. map (λ k. (daemon.id, k)) (loops settings.metrics) ++ b) starts_eq,
            All-append (IsRouted listeners) _ tasks (run_daemon-IsRouted daemon l e host_eq) all,
          )))

enabled-starts :
    (settings : Settings) (transports : Dict Transport) (listeners : Dict Listeners)
    (daemons : List DaemonConfig)
    → all_loops settings transports listeners (filterb (λ d. d.enabled) daemons)
      ≡ starts settings.metrics daemons
enabled-starts settings transports listeners [] = refl
enabled-starts settings transports listeners (d ∷ daemons) = elim (Bool-cases d.enabled) [
  | inl e ↦ rw e (
      ap (λ b. map (λ k. (d.id, k)) (loops settings.metrics) ++ b)
        (enabled-starts settings transports listeners daemons))
  | inr e ↦ rw e (enabled-starts settings transports listeners daemons)
]

each_daemon-Gives :
    (daemons : List DaemonConfig)
    → All (Gives (λ k t. Unit {0}) (λ daemon. ok (build_transport daemon))) daemons
each_daemon-Gives [] = tt
each_daemon-Gives (d ∷ daemons) = ((build_transport d, refl, tt), each_daemon-Gives daemons)

-- Whatever the settings, no KeyError is raised, and the loops that are started are, in the order of the
-- daemons, for each enabled daemon and no other, its listing and its tracker, and with metrics enabled
-- its container stats, and with system metrics enabled as well its system stats. For every loop the
-- dispatcher of new containers finds listeners, which are those of the loop's daemon and reach its host
-- over the same transport, two daemons of one identifier included.
pub run-AllRouted : (settings : Settings) → AllRouted settings (run settings)
unfolding run enabled_daemons
run-AllRouted settings =
    let daemons = enabled_daemons settings in
    let (transports, et, _, full) =
      by_daemon-IsBuilt (λ k t. Unit) (λ daemon. ok (build_transport daemon)) daemons []
        (each_daemon-Gives daemons) (λ k v h. tt) in
    let (listeners, el, sound, full') =
      by_daemon-IsBuilt (IsWired transports) (listeners_for transports) daemons []
        (All-map _ _ daemons (listeners_for-Gives transports) (
          each_daemon (λ k. has k transports ≡ true) daemons
            (λ k c. full k (ground (arith, c, lookup-nil {V = Transport} k)))))
        (λ k v h. absurd (ground (arith, h, lookup-nil {V = Listeners} k))) in
    let (tasks, k, starts_eq, all) =
      run_daemons-AllGood settings transports listeners daemons
        (each_daemon (AreAllThere transports listeners) daemons (λ k c. (
          full k (ground (arith, c, lookup-nil {V = Transport} k)),
          full' k (ground (arith, c, lookup-nil {V = Listeners} k)),
        )))
        sound in
    rw et (
      rw el (rw k (starts_eq ∙ enabled-starts settings transports listeners settings.daemons, all)))
