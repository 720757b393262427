-- ===== src/Server/App.antt =====
-- packages/log-sump-server/src/log_sump_server/app.py: the routers that `create_app` puts together. The
-- lifespan of the app is in Lifespan.
pub mod Granted
pub mod Confined
pub mod Lifespan
pub mod Background
mod Samples
use log_sump.Base.{Option, List}
use log_sump.Base.Int.{ℤ}
use log_sump.Base.Text.{Text, Bytes, Unicode}
use log_sump.Base.Exec.{Exec, pure, ◌>>=◌}
use log_sump.Common.Schema.{DateTime, RecordAdapter}
use log_sump.Common.Config.{Settings}
use log_sump.Common.Redis.{Codec, Redis}
use log_sump.Server.Deps.{get_permitted_daemons}
use log_sump.Server.Catalog.{CatalogEntry, catalog_request}
use log_sump.Server.Records.{RecordsPage, RecordsQuery, get_records}
use log_sump.Server.Health.{Health, liveness, readiness}
use log_sump.Server.Admin.{Reply, RedisCommandRequest, Execute, run_redis_command}

-- A request that FastAPI has routed and validated, with its X-API-Key header, where its route has one:
-- GET /health/live, GET /health/ready, GET /catalog, GET /records and POST /admin/redis/command.
pub data Request : Type 0 where
  live ready : Request
  catalog : (api_key : Option Text) → Request
  records : (api_key : Option Text) (query : RecordsQuery) → Request
  command : (api_key : Option Text) (body : RedisCommandRequest) → Request

pub data Response : Type 0 where
  health : Health → Response
  entries : List CatalogEntry → Response
  page : RecordsPage → Response
  result : Reply → Response

-- What the requests are served with: `now` is the time of the request.
pub record Context : Type 0 where
  pub adapter : RecordAdapter
  pub codec : Codec
  pub unicode : Unicode
  pub sha256_hex : Text → Text
  pub lenient : Bytes → Text
  pub epoch_ms : DateTime → ℤ
  pub settings : Settings
  pub now : DateTime

module _ (R : Redis) (c : Context) where
  -- GET /records with its dependency on the key
  unfoldable pub records_request : Option Text → RecordsQuery → Exec R.State RecordsPage
  records_request api_key query = do
    permitted ← get_permitted_daemons R c.codec c.sha256_hex api_key
    get_records c.adapter c.codec c.unicode R c.epoch_ms c.settings c.now query permitted

  unfoldable pub serve :
      Execute R c.codec c.sha256_hex c.unicode c.lenient → Request → Exec R.State Response
  serve execute_command live = pure (health liveness)
  serve execute_command ready = do status ← readiness R; pure (health status)
  serve execute_command (catalog api_key) = do
    found ← catalog_request R c.codec c.sha256_hex c.settings api_key
    pure (entries found)
  serve execute_command (records api_key query) = do
    found ← records_request api_key query
    pure (page found)
  serve execute_command (command api_key body) = do
    reply ←
        run_redis_command R c.codec c.sha256_hex c.unicode c.lenient execute_command api_key body
    pure (result reply)
