-- ===== src/Server/Ingest/Trimmer.antt =====
-- packages/log-sump-server/src/log_sump_server/ingest/trimmer.py
pub mod Retention
pub mod Losses
use log_sump.Base.{ℕ, ◌*◌, List, [], ◌∷◌}
use log_sump.Base.Int.{ℤ, pos, ◌-ℤ◌, ◌*ℤ◌}
use log_sump.Base.Text.{Text}
use log_sump.Base.Errors.{is_redis_error}
use log_sump.Base.Exec.{Exec, pure, try_except, ◌>>=◌, ◌>>◌}
use log_sump.Common.Schema.{Kind, log, metric}
use log_sump.Common.RedisKeys.{stream_key}
use log_sump.Common.Redis.{Redis}

abbrev pub ms_per_day : ℕ
ms_per_day = 24 * 60 * 60 * 1000

-- now_ms - days * _MS_PER_DAY
abbrev pub minid_of : ℕ → ℤ → ℤ
minid_of now_ms days = pos now_ms -ℤ days *ℤ pos ms_per_day

module _ (R : Redis) where
  unfoldable pub trim_stream : Text → Kind → ℤ → Exec R.State Unit
  trim_stream docker_host kind minid_ms =
      try_except (do R.xtrim (stream_key docker_host kind) minid_ms; pure tt) is_redis_error
        (λ e. pure tt)

  -- The loop of _trim_once, over the daemons that are left.
  unfoldable pub trim_daemons : ℤ → ℤ → List Text → Exec R.State Unit
  trim_daemons log_minid metric_minid [] = pure tt
  trim_daemons log_minid metric_minid (docker_host ∷ daemon_ids) = do
    trim_stream docker_host log log_minid
    trim_stream docker_host metric metric_minid
    trim_daemons log_minid metric_minid daemon_ids

  -- `now_ms` is int(time.time() * 1000).
  unfoldable pub trim_once :
      ℕ → List Text → (retention_days metrics_retention_days : ℤ) → Exec R.State Unit
  trim_once now_ms daemon_ids retention_days metrics_retention_days =
      trim_daemons (minid_of now_ms retention_days) (minid_of now_ms metrics_retention_days)
        daemon_ids

  -- The rounds of run_trimmer up to a moment, each at its own time.
  unfoldable pub run_trimmer : List ℕ → List Text → ℤ → ℤ → Exec R.State Unit
  run_trimmer [] daemon_ids retention_days metrics_retention_days = pure tt
  run_trimmer (now_ms ∷ times) daemon_ids retention_days metrics_retention_days = do
    trim_once now_ms daemon_ids retention_days metrics_retention_days
    run_trimmer times daemon_ids retention_days metrics_retention_days
