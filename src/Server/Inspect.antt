-- ===== src/Server/Inspect.antt =====
-- packages/log-sump-server/src/log_sump_server/redis_inspect.py: which Redis commands a client may
-- run.
pub mod Allowed
mod Samples
use log_sump.Base.{List, [], ◌∷◌, if◌then◌else◌}
use log_sump.Base.Text.{Text, codes, strip, contains, Unicode}
use log_sump.Base.Errors.{Result, ok, err, command_not_allowed}

unfoldable pub allowed_commands : List Text
allowed_commands =
    codes "GET"
    ∷ codes "MGET"
    ∷ codes "EXISTS"
    ∷ codes "TYPE"
    ∷ codes "TTL"
    ∷ codes "PTTL"
    ∷ codes "STRLEN"
    ∷ codes "KEYS"
    ∷ codes "SCAN"
    ∷ codes "DBSIZE"
    ∷ codes "HGET"
    ∷ codes "HMGET"
    ∷ codes "HGETALL"
    ∷ codes "HKEYS"
    ∷ codes "HVALS"
    ∷ codes "HLEN"
    ∷ codes "HEXISTS"
    ∷ codes "SMEMBERS"
    ∷ codes "SCARD"
    ∷ codes "SISMEMBER"
    ∷ codes "LRANGE"
    ∷ codes "LLEN"
    ∷ codes "LINDEX"
    ∷ codes "ZRANGE"
    ∷ codes "ZSCORE"
    ∷ codes "ZCARD"
    ∷ codes "ZRANK"
    ∷ codes "XRANGE"
    ∷ codes "XREVRANGE"
    ∷ codes "XLEN"
    ∷ codes "XINFO"
    ∷ codes "PING"
    ∷ codes "INFO"
    ∷ codes "MEMORY"
    ∷ []

-- The normalised command, or CommandNotAllowed.
unfoldable pub check_command_allowed : Unicode → Text → Result Text
check_command_allowed U command =
    let normalized = U.upper (strip command) in
    if contains allowed_commands normalized then ok normalized else err command_not_allowed
