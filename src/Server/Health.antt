-- ===== src/Server/Health.antt =====
-- packages/log-sump-server/src/log_sump_server/routers/health.py: liveness and readiness.
use log_sump.Base.{ℕ}
use log_sump.Base.Text.{Text, codes}
use log_sump.Base.Errors.{is_redis_error}
use log_sump.Base.Exec.{Exec, pure, try_except, ◌>>◌}
use log_sump.Common.Redis.{Redis}

-- The status code of the response, and the value under "status".
pub record Health : Type 0 where
  pub status_code : ℕ
  pub status : Text

unfoldable pub liveness : Health
liveness = record { status_code = 200; status = codes "ok" }

unfoldable pub readiness : (R : Redis) → Exec R.State Health
readiness R =
    try_except (do R.ping; pure (record { status_code = 200; status = codes "ok" })) is_redis_error
      (λ e. pure (record { status_code = 503; status = codes "redis unreachable" }))
