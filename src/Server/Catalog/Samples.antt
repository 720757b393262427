-- ===== src/Server/Catalog/Samples.antt =====
-- A catalog of two daemons for a key that permits one.
use log_sump.Base.{◌≡◌, refl, true, some, List, [], ◌∷◌}
use log_sump.Base.Text.{Text, codes, bytes, text_discrete}
use log_sump.Base.Errors.{ok}
use log_sump.Common.Config.{DaemonConfig, ssh, Settings, default_settings}
use log_sump.Common.Redis.Memory.{Store, empty_store, memory}
use log_sump.Common.Auth.{permitted_daemons, decode_members}
use log_sump.Server.Deps.{get_permitted_daemons}
use log_sump.Server.Samples.{codec}
use log_sump.Server.Catalog.{CatalogEntry, entry_of, get_catalog, catalog_request}

abbrev daemon : Text → DaemonConfig
daemon id = record {
  id = id;
  host = codes "lan";
  user = codes "root";
  transport = ssh;
  ssh_options = [];
  enabled = true;
}

abbrev settings : Settings
settings = record default_settings { daemons = daemon (codes "h") ∷ daemon (codes "k") ∷ [] }

abbrev store : Store
store = record empty_store { sets = λ k. bytes (codes "k") ∷ [] }

abbrev hash : Text → Text
hash key = codes "0"

abbrev entries : List CatalogEntry
entries = entry_of (daemon (codes "k")) ∷ []

catalog_test :
    (catalog_request memory codec hash settings (some (codes "secret")) store).0 ≡ ok entries
unfolding catalog_request get_catalog get_permitted_daemons permitted_daemons decode_members
    text_discrete
catalog_test = refl
