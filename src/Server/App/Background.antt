-- ===== src/Server/App/Background.antt =====
-- The trimmer as the lifespan of packages/log-sump-server/src/log_sump_server/app.py starts it.
use log_sump.Base.{
  ℕ, ◌≡◌, refl, ap, ◌∙◌, true, Bool, ◌&&◌, none, some, List, [], ◌∷◌, map, filterb, filterb-true,
  filterb-filterb, sym, arith, Bool-cases,
}
use log_sump.Base.Int.{ℤ, pos, ◌+ℤ◌, ◌-ℤ◌, ◌*ℤ◌, leb_ℤ}
use log_sump.Base.Text.{Text, contains}
use log_sump.Base.Errors.{ok}
use log_sump.Base.Exec.{Exec, bind_ok}
use log_sump.Common.Schema.{Kind, log, metric}
use log_sump.Common.Config.{Settings, RetentionConfig, effective_metrics_retention_days}
use log_sump.Common.RedisKeys.{stream_key}
use log_sump.Common.Redis.{Redis}
use log_sump.Common.Redis.Laws.{Entry, kept_by, IsRedis}
use log_sump.Server.Ingest.Trimmer.{minid_of, trim_once, run_trimmer}
use log_sump.Server.Ingest.Trimmer.Retention.{days, Replies, trim_once-enforces}

-- [daemon.id for daemon in settings.daemons]
abbrev pub daemon_ids : Settings → List Text
daemon_ids settings = map (λ d. d.id) settings.daemons

-- The trimmer's task, up to its rounds at these times.
unfoldable pub trimmer_task : (R : Redis) → Settings → List ℕ → Exec R.State Unit
trimmer_task R settings times =
    run_trimmer R times (daemon_ids settings) settings.retention.retention_days
      (effective_metrics_retention_days settings.retention)

-- For how many days the settings say that a kind is kept.
abbrev pub retained : RetentionConfig → Kind → ℤ
retained r log = r.retention_days
retained r metric = elim r.metrics_retention_days [ none ↦ r.retention_days | some n ↦ n ]

-- At none of these times, in milliseconds, is the entry older than n days of 86,400 seconds.
abbrev pub kept_at : List ℕ → ℤ → Entry → Bool
kept_at [] n e = true
kept_at (now_ms ∷ times) n e =
    leb_ℤ (pos now_ms) (pos e.id.ms +ℤ n *ℤ pos 86_400_000) && kept_at times n e

-- XTRIM keeps such an entry.
within_days :
    (now_ms : ℕ) (n : ℤ) (e : Entry)
    → kept_by (minid_of now_ms n) e ≡ leb_ℤ (pos now_ms) (pos e.id.ms +ℤ n *ℤ pos 86_400_000)
unfolding ◌+ℤ◌ ◌-ℤ◌
within_days now_ms n e = ground (arith, Bool-cases (kept_by (minid_of now_ms n) e))

kept_at-cons :
    (now_ms : ℕ) (times : List ℕ) (n : ℤ) (es : List Entry)
    → filterb (λ e. kept_by (minid_of now_ms n) e && kept_at times n e) es
      ≡ filterb (kept_at (now_ms ∷ times) n) es
kept_at-cons now_ms times n [] = refl
kept_at-cons now_ms times n (e ∷ es) =
    rw (within_days now_ms n e) (rw (kept_at-cons now_ms times n es) refl)

module _ (R : Redis) (laws : IsRedis R) where
  run_trimmer-enforces :
      (times : List ℕ) (ds : List Text) (rd md : ℤ) (s : R.State) (h : Text) (kind : Kind)
      → Replies R laws h kind
      → contains ds h ≡ true
      → ((run_trimmer R times ds rd md s).0 ≡ ok tt)
        × (laws.stream (run_trimmer R times ds rd md s).1 (stream_key h kind)
            ≡ filterb (kept_at times (days rd md kind)) (laws.stream s (stream_key h kind)))
  unfolding run_trimmer
  run_trimmer-enforces [] ds rd md s h kind replies listed =
      (refl, sym (filterb-true (laws.stream s (stream_key h kind))))
  run_trimmer-enforces (now_ms ∷ times) ds rd md s h kind replies listed =
      let (done, kept) = trim_once-enforces R laws now_ms ds rd md s h kind replies listed in
      let s' = (trim_once R now_ms ds rd md s).1 in
      let (done', kept') = run_trimmer-enforces times ds rd md s' h kind replies listed in
      let step = bind_ok (trim_once R now_ms ds rd md) (λ _. run_trimmer R times ds rd md) s done in
      (
        ap (λ r. r.0) step ∙ done',
        ap (λ r. laws.stream r.1 (stream_key h kind)) step
            ∙ kept'
            ∙ ap (filterb (kept_at times (days rd md kind))) kept
            ∙ filterb-filterb (kept_at times (days rd md kind))
                (kept_by (minid_of now_ms (days rd md kind))) (laws.stream s (stream_key h kind))
            ∙ kept_at-cons now_ms times (days rd md kind) (laws.stream s (stream_key h kind)),
      )

  days-retained :
      (r : RetentionConfig) (kind : Kind)
      → days r.retention_days (effective_metrics_retention_days r) kind ≡ retained r kind
  unfolding effective_metrics_retention_days
  days-retained r log = refl
  days-retained r metric = refl

  -- The trimmer that the lifespan starts does not end by an exception, whatever else fails. After its rounds
  -- at any times, a stream of a daemon of the settings, also of one that is not enabled, whose XTRIM
  -- answers holds exactly those of its entries that are within the days that the settings keep its
  -- kind, at each of these times; and metrics are kept as long as logs unless the settings say
  -- otherwise.
  pub trimmer_task-enforces :
      (settings : Settings) (times : List ℕ) (s : R.State) (h : Text) (kind : Kind)
      → Replies R laws h kind
      → contains (daemon_ids settings) h ≡ true
      → ((trimmer_task R settings times s).0 ≡ ok tt)
        × (laws.stream (trimmer_task R settings times s).1 (stream_key h kind)
            ≡ filterb
                (kept_at times (retained settings.retention kind))
                (laws.stream s (stream_key h kind)))
  unfolding trimmer_task
  trimmer_task-enforces settings times s h kind replies listed =
      let (done, kept) =
        run_trimmer-enforces times (daemon_ids settings) settings.retention.retention_days
          (effective_metrics_retention_days settings.retention) s h kind replies listed in
      (
        done,
        kept
            ∙ ap (λ n. filterb (kept_at times n) (laws.stream s (stream_key h kind)))
                (days-retained settings.retention kind),
      )
