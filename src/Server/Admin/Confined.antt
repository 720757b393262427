-- ===== src/Server/Admin/Confined.antt =====
-- What the endpoint of packages/log-sump-server/src/log_sump_server/routers/admin.py sends to
-- Redis, and the form of its answers.
use log_sump.Base.{◌≡◌, refl, Bool, true, false, ◌||◌, Option, List, arith}
use log_sump.Base.Text.{Text, Bytes, Str, bytes, text, Unicode, contains}
use log_sump.Base.Errors.{Result, ok, err}
use log_sump.Common.Redis.{Codec, Redis}
use log_sump.Base.Exec.{bind_same}
use log_sump.Server.Deps.{require_valid_api_key}
use log_sump.Server.Inspect.{allowed_commands, check_command_allowed}
use log_sump.Server.Inspect.Allowed.{check_command_allowed-canonical}
use log_sump.Server.Admin.{
  Reply, nil, flag, int, float, str, arr, tup, dict, Replies, end, next, Pairs, done, pair, decode,
  decode_all, decode_pairs, decode_key, put, RedisCommandRequest, Execute, run_checked,
  run_redis_command,
}

-- Does a reply hold bytes, as a value or as a key?
abbrev raw_str : Str → Bool
raw_str (bytes b) = true
raw_str (text t) = false

unfoldable mutual
  pub has_bytes : Reply → Bool
  has_bytes nil = false
  has_bytes (flag b) = false
  has_bytes (int n) = false
  has_bytes (float x) = false
  has_bytes (str s) = raw_str s
  has_bytes (arr vs) = any_bytes vs
  has_bytes (tup vs) = any_bytes vs
  has_bytes (dict d) = pair_bytes d

  pub any_bytes : Replies → Bool
  any_bytes end = false
  any_bytes (next v vs) = has_bytes v || any_bytes vs

  pub pair_bytes : Pairs → Bool
  pair_bytes done = false
  pair_bytes (pair k v d) = raw_str k || has_bytes v || pair_bytes d

put-bytes :
    (k : Text) (v : Reply) (d : Pairs)
    → has_bytes v ≡ false
    → pair_bytes d ≡ false
    → pair_bytes (put k v d) ≡ false
unfolding has_bytes
put-bytes k v done h hs = ground (arith, h)
put-bytes k v (pair (bytes b) w d) h hs = absurd (ground (arith, hs))
put-bytes k v (pair (text t) w d) h hs = ground (arith, h, hs, put-bytes k v d h)

mutual
  unfolding decode has_bytes

  decode-bytes_lem : (lenient : Bytes → Text) (v : Reply) → has_bytes (decode lenient v) ≡ false
  decode-bytes_lem lenient nil = refl
  decode-bytes_lem lenient (flag b) = refl
  decode-bytes_lem lenient (int n) = refl
  decode-bytes_lem lenient (float x) = refl
  decode-bytes_lem lenient (str s) = refl
  decode-bytes_lem lenient (arr vs) = decode_all-bytes lenient vs
  decode-bytes_lem lenient (tup vs) = decode_all-bytes lenient vs
  decode-bytes_lem lenient (dict d) = decode_pairs-bytes lenient d done refl

  decode_all-bytes :
      (lenient : Bytes → Text) (vs : Replies) → any_bytes (decode_all lenient vs) ≡ false
  decode_all-bytes lenient end = refl
  decode_all-bytes lenient (next v vs) =
      ground (arith, decode-bytes_lem lenient v, decode_all-bytes lenient vs)

  decode_pairs-bytes :
      (lenient : Bytes → Text) (pairs d : Pairs)
      → pair_bytes d ≡ false
      → pair_bytes (decode_pairs lenient pairs d) ≡ false
  decode_pairs-bytes lenient done d h = h
  decode_pairs-bytes lenient (pair k v pairs) d h =
      decode_pairs-bytes lenient pairs (put (decode_key lenient k) (decode lenient v) d)
        (put-bytes (decode_key lenient k) (decode lenient v) d (decode-bytes_lem lenient v) h)

-- A decoded reply holds no bytes, neither as a value nor as a key, at any depth.
pub decode-has_bytes : (lenient : Bytes → Text) (v : Reply) → has_bytes (decode lenient v) ≡ false
decode-has_bytes lenient v = decode-bytes_lem lenient v

module _ (R : Redis) (codec : Codec) (sha256_hex : Text → Text) (u : Unicode)
    (lenient : Bytes → Text) where
  checked-same :
      (run other : Execute R codec sha256_hex u lenient) (args : List Text) (command : Text)
      (r : Result Text)
      → check_command_allowed u command ≡ r
      → ((c : Text) (words : List Text)
          → contains allowed_commands c ≡ true
          → (s : R.State) → run c words s ≡ other c words s)
      → (s : R.State)
      → run_checked R codec sha256_hex u lenient run args r s
        ≡ run_checked R codec sha256_hex u lenient other args r s
  checked-same run other args command (err e) h same s = refl
  checked-same run other args command (ok c) h same s =
      rw (same c args (check_command_allowed-canonical u command c h).0 s) refl

  -- Two Redis servers that answer the commands of the allowlist alike, and may differ on all others,
  -- cannot be told apart through the endpoint: every request, with or without a valid key, has the
  -- same answer and the same effect on both. So no command outside the allowlist is ever sent.
  pub run_redis_command-confined :
      (run other : Execute R codec sha256_hex u lenient)
      → ((c : Text) (words : List Text)
          → contains allowed_commands c ≡ true
          → (s : R.State) → run c words s ≡ other c words s)
      → (api_key : Option Text) (body : RedisCommandRequest) (s : R.State)
      → run_redis_command R codec sha256_hex u lenient run api_key body s
        ≡ run_redis_command R codec sha256_hex u lenient other api_key body s
  unfolding run_redis_command
  run_redis_command-confined run other same api_key body s =
      bind_same (require_valid_api_key R codec sha256_hex api_key) _ _ s (λ a t.
        checked-same run other body.args body.command (check_command_allowed u body.command) refl
          same t)
