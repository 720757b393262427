-- ===== src/Common/RedisKeys/Samples.antt =====
-- The keys of redis_keys.py at concrete names.
use log_sump.Base.{◌≡◌, refl}
use log_sump.Base.Text.{codes}
use log_sump.Common.Schema.{metric}
use log_sump.Common.RedisKeys.{stream_key}

stream_key_test : stream_key (codes "prod:1") metric ≡ codes "logsump:stream:prod:1:metric"
unfolding stream_key
stream_key_test = refl
