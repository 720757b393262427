-- ===== src/Server/Deps.antt =====
-- packages/log-sump-server/src/log_sump_server/deps.py: who may ask for what.
use log_sump.Base.{Option, none, some, List, if◌then◌else◌}
use log_sump.Base.Text.{Text, truthy, contains}
use log_sump.Base.Errors.{Result, ok, err, http_error}
use log_sump.Base.Exec.{Exec, pure, raise, ◌>>=◌, ◌>>◌}
use log_sump.Common.Redis.{Codec, Redis}
use log_sump.Common.Auth.{permitted_daemons}

module _ (R : Redis) (codec : Codec) (sha256_hex : Text → Text) where
  abbrev pub known_key : Option (List Text) → Exec R.State (List Text)
  known_key none = raise (http_error 401)
  known_key (some permitted) = pure permitted

  abbrev given_key : Text → Exec R.State (List Text)
  given_key key =
      if truthy key
      then (do permitted ← permitted_daemons R codec sha256_hex key; known_key permitted)
      else raise (http_error 401)

  -- `none` is a request with no X-API-Key header.
  unfoldable pub get_permitted_daemons : Option Text → Exec R.State (List Text)
  get_permitted_daemons none = raise (http_error 401)
  get_permitted_daemons (some key) = given_key key

  unfoldable pub require_valid_api_key : Option Text → Exec R.State Unit
  require_valid_api_key key = do get_permitted_daemons key; pure tt

unfoldable pub require_daemon_access : Text → List Text → Result (Unit {0})
require_daemon_access docker_host permitted =
    if contains permitted docker_host then ok tt else err (http_error 403)
