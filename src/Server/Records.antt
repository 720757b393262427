-- ===== src/Server/Records.antt =====
-- packages/log-sump-server/src/log_sump_server/routers/records.py: GET /records.
pub mod Sort
pub mod Sorting
pub mod Mixed
pub mod Timeline
mod Samples
use log_sump.Base.{
  ℕ, ◌-◌, Bool, true, false, not, ◌&&◌, ◌||◌, Option, none, some, List, [], ◌∷◌, ◌++◌, map, leb,
  if◌then◌else◌,
}
use log_sump.Base.Int.{ℤ, pos, eq_ℤ, min_ℤ}
use log_sump.Base.Text.{Text, Unicode}
use log_sump.Base.Errors.{Result, ok, err, type_error}
use log_sump.Base.Exec.{Exec, pure, lift, ◌>>=◌, ◌>>◌}
use log_sump.Common.Schema.{DateTime, Kind, log, metric, Record, RecordAdapter, ts_of}
use log_sump.Common.Redis.{Codec, Redis}
use log_sump.Common.Config.{Settings}
use log_sump.Server.Deps.{require_daemon_access}
use log_sump.Server.Queries.{fetch_kind_page, apply_filters}
use Sort.{sorted_by_ts}

pub record RecordsPage : Type 0 where
  pub records : List Record
  pub next_log_cursor : Option Text
  pub next_metric_cursor : Option Text

-- The `kind` parameter, "log", "metric" or "both": FastAPI refuses any other value.
pub data KindParam : Type 0 where
  only : Kind → KindParam
  both : KindParam

abbrev pub wants_log : KindParam → Bool
wants_log (only log) = true
wants_log (only metric) = false
wants_log both = true

abbrev pub wants_metric : KindParam → Bool
wants_metric (only log) = false
wants_metric (only metric) = true
wants_metric both = true

-- The query of a request.
pub record RecordsQuery : Type 0 where
  pub docker_host : Text
  pub kind : KindParam
  pub container_id : Option Text
  pub level : Option Text
  pub q : Option Text
  pub start : Option DateTime
  pub end_time : Option DateTime
  pub log_cursor : Option Text
  pub metric_cursor : Option Text
  pub limit : Option ℤ

-- limit or default
abbrev or_default : Option ℤ → ℤ → ℤ
or_default none default = default
or_default (some limit) default = if eq_ℤ limit (pos 0) then default else limit

abbrev pub effective_limit : Settings → Option ℤ → ℤ
effective_limit settings limit =
    min_ℤ (or_default limit settings.server.page_size_default) settings.server.page_size_max

-- now - timedelta(hours=1)
abbrev hour_before : DateTime → DateTime
hour_before now = record now { micros = now.micros - 3_600_000_000 }

abbrev or_time : Option DateTime → DateTime → DateTime
or_time none default = default
or_time (some t) default = t

-- What the two fetches brought: their records, and the two cursors.
pub record Fetched : Type 0 where
  pub all_records : List Record
  pub log_next : Option Text
  pub metric_next : Option Text

-- `now` is the time of the request, and `epoch_ms` stands for int(dt.timestamp() * 1000).
module _ (adapter : RecordAdapter) (codec : Codec) (u : Unicode) (R : Redis)
    (epoch_ms : DateTime → ℤ) (settings : Settings) (now : DateTime) where
  abbrev pub fetch_one :
      RecordsQuery → Kind → Option Text → Bool → Exec R.State (List Record × Option Text)
  fetch_one query kind cursor false = pure ([], none)
  fetch_one query kind cursor true = do
    page ←
        fetch_kind_page adapter codec R epoch_ms query.docker_host kind
          (or_time query.start (hour_before now)) (or_time query.end_time now) cursor
          (effective_limit settings query.limit)
    pure (map (λ e. e.1) page.0, page.1)

  unfoldable pub fetch_kinds : RecordsQuery → Exec R.State Fetched
  fetch_kinds query = do
    logs ← fetch_one query log query.log_cursor (wants_log query.kind)
    metrics ← fetch_one query metric query.metric_cursor (wants_metric query.kind)
    pure (record { all_records = logs.0 ++ metrics.0; log_next = logs.1; metric_next = metrics.1 })

  unfoldable pub get_records : RecordsQuery → List Text → Exec R.State RecordsPage
  get_records query permitted = do
    lift (require_daemon_access query.docker_host permitted)
    fetched ← fetch_kinds query
    timeline ← lift (sorted_by_ts fetched.all_records)
    pure (record {
      records = apply_filters u timeline query.container_id query.level query.q;
      next_log_cursor = fetched.log_next;
      next_metric_cursor = fetched.metric_next;
    })
