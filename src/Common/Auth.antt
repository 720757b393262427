-- ===== src/Common/Auth.antt =====
-- packages/log-sump-common/src/log_sump_common/auth.py: the daemons that an API key may access.
use log_sump.Base.{Option, none, some, List, [], ◌∷◌, if◌then◌else◌}
use log_sump.Base.Text.{Text, truthy, Str}
use log_sump.Base.Errors
use log_sump.Base.Errors.{Result, ok}
use log_sump.Base.Exec.{Exec, pure, lift, ◌>>=◌}
use log_sump.Common.Redis.{Codec, decode_str, Redis}
use log_sump.Common.RedisKeys.{auth_key}

-- frozenset(m.decode() if isinstance(m, bytes) else m for m in members)
unfoldable pub decode_members : Codec → List Str → Result (List Text)
decode_members codec [] = ok []
decode_members codec (m ∷ members) =
    Errors.◌>>=◌ (decode_str codec m)
      λ t. Errors.◌>>=◌ (decode_members codec members) λ rest. ok (t ∷ rest)

abbrev pub permitted_of : Codec → List Str → Result (Option (List Text))
permitted_of codec [] = ok none
permitted_of codec (m ∷ members) =
    Errors.◌>>=◌ (decode_members codec (m ∷ members)) λ ids. ok (some ids)

-- RedisApiKeyAuthBackend.permitted_daemons: `none` for an unknown or empty key
unfoldable pub permitted_daemons :
    (R : Redis) → Codec → (Text → Text) → Text → Exec R.State (Option (List Text))
permitted_daemons R codec sha256_hex api_key =
    if truthy api_key
    then (do members ← R.smembers (auth_key sha256_hex api_key); lift (permitted_of codec members))
    else pure none
