-- ===== src/Common/Redis.antt =====
-- The Redis server and redis-py, which are not part of the repository: the calls that log-sump makes
-- of them, and what their documentation says of these calls.
pub mod StreamId
pub mod Laws
pub mod Ascending
pub mod Memory
use log_sump.Base.{ℕ, ◌<◌, ◌≡◌, Option, some, List, All}
use log_sump.Base.Int.{ℤ}
use log_sump.Base.Text.{Text, Bytes, Str, bytes, text}
use log_sump.Base.Dict.{Dict}
use log_sump.Base.Errors.{Result, ok, or_raise, value_error}
use log_sump.Base.Exec.{Exec}

-- A value that redis-py types as `bytes | str | int`.
pub data Raw : Type 0 where
  str : Str → Raw
  int : ℤ → Raw

-- bytes.decode(): `none` for UnicodeDecodeError. ASCII decodes to itself.
pub record Codec : Type 0 where
  pub decode : Bytes → Option Text
  pub decode_ascii : (b : Bytes) → All (λ c. c < 128) b → decode b ≡ some b

-- v.decode() if isinstance(v, bytes) else v
abbrev pub decode_str : Codec → Str → Result Text
decode_str codec (bytes b) = or_raise (codec.decode b) value_error
decode_str codec (text t) = ok t

-- One entry of an XRANGE reply, as redis-py types it.
pub record RawEntry : Type 0 where
  pub entry_id : Option Str
  pub fields : Option (Dict Bytes)

-- One queued XADD of a pipeline.
pub record XAdd : Type 0 where
  pub key : Text
  pub fields : Dict Bytes

-- A call changes the state of the server and may raise RedisError.
pub record Redis : Type 1 where
  pub State : Type 0
  pub smembers : Text → Exec State (List Str)
  pub xrange : (key low high : Text) (count : ℤ) → Exec State (Option (List RawEntry))
  pub xtrim : (key : Text) (minid : ℤ) → Exec State ℤ
  pub pipeline_execute : List XAdd → Exec State Unit
  pub blpop : (key : Text) → Exec State (Option Raw)
  pub lpop : (key : Text) (count : ℤ) → Exec State (Option (List Raw))
  pub ping : Exec State Unit
