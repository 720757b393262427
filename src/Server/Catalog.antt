-- ===== src/Server/Catalog.antt =====
-- packages/log-sump-server/src/log_sump_server/routers/catalog.py: GET /catalog.
pub mod Permitted
mod Samples
use log_sump.Base.{Bool, Option, List, [], ◌∷◌, map, filterb}
use log_sump.Base.Text.{Text, contains}
use log_sump.Base.Exec.{Exec, pure, ◌>>=◌}
use log_sump.Common.Config.{DaemonConfig, Settings}
use log_sump.Common.Redis.{Codec, Redis}
use log_sump.Server.Deps.{get_permitted_daemons}

pub record CatalogEntry : Type 0 where
  pub id : Text
  pub host : Text
  pub enabled : Bool

abbrev pub entry_of : DaemonConfig → CatalogEntry
entry_of daemon = record { id = daemon.id; host = daemon.host; enabled = daemon.enabled }

unfoldable pub get_catalog : List Text → Settings → List CatalogEntry
get_catalog permitted settings =
    map entry_of (filterb (λ daemon. contains permitted daemon.id) settings.daemons)

-- The endpoint with its dependencies.
unfoldable pub catalog_request :
    (R : Redis) → Codec → (Text → Text) → Settings → Option Text → Exec R.State (List CatalogEntry)
catalog_request R codec sha256_hex settings api_key = do
  permitted ← get_permitted_daemons R codec sha256_hex api_key
  pure (get_catalog permitted settings)
