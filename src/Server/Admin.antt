-- ===== src/Server/Admin.antt =====
-- packages/log-sump-server/src/log_sump_server/routers/admin.py: POST /admin/redis/command.
pub mod Confined
mod Samples
use log_sump.Base.{Bool, true, false, Option, List, if◌then◌else◌}
use log_sump.Base.Int.{ℤ}
use log_sump.Base.Text.{Text, Bytes, Str, bytes, text, Unicode, ◌==◌}
use log_sump.Base.Errors.{Result, ok, err, http_error, is_redis_error}
use log_sump.Base.Exec.{Exec, pure, raise, try_except, ◌>>=◌, ◌>>◌}
use log_sump.Common.Schema.{Float}
use log_sump.Common.Redis.{Codec, Redis}
use log_sump.Server.Deps.{require_valid_api_key}
use log_sump.Server.Inspect.{check_command_allowed}

-- A value that redis-py returns; the keys of a dictionary are bytes or str.
mutual
  pub data Reply : Type 0 where
    nil : Reply
    flag : Bool → Reply
    int : ℤ → Reply
    float : Float → Reply
    str : Str → Reply
    arr : Replies → Reply
    tup : Replies → Reply
    dict : Pairs → Reply

  pub data Replies : Type 0 where
    end : Replies
    next : Reply → Replies → Replies

  pub data Pairs : Type 0 where
    done : Pairs
    pair : Str → Reply → Pairs → Pairs

-- `lenient` stands for bytes.decode(errors="replace").
abbrev decode_key : (Bytes → Text) → Str → Text
decode_key lenient (bytes b) = lenient b
decode_key lenient (text t) = t

-- Equal keys of a decoded dictionary.
abbrev is_key : Text → Str → Bool
is_key k (bytes b) = false
is_key k (text t) = k == t

-- d[k] = v
abbrev put : Text → Reply → Pairs → Pairs
put k v done = pair (text k) v done
put k v (pair j w d) = if is_key k j then pair j v d else pair j w (put k v d)

unfoldable mutual
  pub decode : (Bytes → Text) → Reply → Reply
  decode lenient nil = nil
  decode lenient (flag b) = flag b
  decode lenient (int n) = int n
  decode lenient (float x) = float x
  decode lenient (str s) = str (text (decode_key lenient s))
  decode lenient (arr vs) = arr (decode_all lenient vs)
  decode lenient (tup vs) = tup (decode_all lenient vs)
  decode lenient (dict d) = dict (decode_pairs lenient d done)

  pub decode_all : (Bytes → Text) → Replies → Replies
  decode_all lenient end = end
  decode_all lenient (next v vs) = next (decode lenient v) (decode_all lenient vs)

  -- The pairs are put into the new dictionary one after the other.
  pub decode_pairs : (Bytes → Text) → Pairs → Pairs → Pairs
  decode_pairs lenient done d = d
  decode_pairs lenient (pair k v pairs) d =
      decode_pairs lenient pairs (put (decode_key lenient k) (decode lenient v) d)

pub record RedisCommandRequest : Type 0 where
  pub command : Text
  pub args : List Text

module _ (R : Redis) (codec : Codec) (sha256_hex : Text → Text) (u : Unicode)
    (lenient : Bytes → Text) where
  -- redis.execute_command(command, *args), a parameter
  abbrev pub Execute : Type 0
  Execute = Text → List Text → Exec R.State Reply

  abbrev run_checked : Execute → List Text → Result Text → Exec R.State Reply
  run_checked execute_command args (err e) = raise (http_error 403)
  run_checked execute_command args (ok command) = do
    result ← try_except (execute_command command args) is_redis_error (λ e. raise (http_error 400))
    pure (decode lenient result)

  -- The handler behind its dependency on a valid key.
  unfoldable pub run_redis_command :
      Execute → Option Text → RedisCommandRequest → Exec R.State Reply
  run_redis_command execute_command api_key body = do
    require_valid_api_key R codec sha256_hex api_key
    run_checked execute_command body.args (check_command_allowed u body.command)
