-- ===== src/Common/RedisKeys.antt =====
-- packages/log-sump-common/src/log_sump_common/redis_keys.py: every Redis key that log-sump uses.
pub mod Distinct
mod Samples
use log_sump.Base.{◌++◌}
use log_sump.Base.Text.{Text, codes}
use log_sump.Common.Schema.{Kind, kind_value}

abbrev pub key_prefix : Text
key_prefix = codes "logsump"

unfoldable pub ingest_list : Text
ingest_list = key_prefix ++ codes ":ingest:v1"

unfoldable pub stream_key : Text → Kind → Text
stream_key docker_host kind =
    key_prefix ++ (codes ":stream:" ++ (docker_host ++ (codes ":" ++ kind_value kind)))

unfoldable pub daemon_status_key : Text → Text
daemon_status_key docker_host = key_prefix ++ (codes ":daemon:" ++ (docker_host ++ codes ":status"))

-- `sha256_hex` stands for hashlib.sha256(api_key.encode()).hexdigest().
unfoldable pub auth_key : (sha256_hex : Text → Text) → Text → Text
auth_key sha256_hex api_key = key_prefix ++ (codes ":auth:" ++ sha256_hex api_key)
