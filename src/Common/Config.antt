-- ===== src/Common/Config.antt =====
-- packages/log-sump-common/src/log_sump_common/config.py: the settings of both processes.
use log_sump.Base.{
  ◌^◌, Bool, true, not, ◌&&◌, ◌||◌, Option, none, some, List, [], ◌∷◌, ◌++◌, if◌then◌else◌, nat_eq,
  filterb,
}
use log_sump.Base.Int.{ℤ, pos}
use log_sump.Base.Text.{Text, codes, truthy}
use log_sump.Common.Schema.{Float}

pub data TransportKind : Type 0 where
  ssh local : TransportKind

pub record DaemonConfig : Type 0 where
  pub id : Text
  pub host : Text
  pub user : Text
  pub transport : TransportKind
  pub ssh_options : List Text
  pub enabled : Bool

pub record ListenerConfig : Type 0 where
  pub listing_interval_s : Float
  pub tracker_interval_s : Float
  pub missing_threshold_cycles : ℤ
  pub stats_interval_s : Float
  pub system_stats_interval_s : Option Float
  pub max_concurrent_listener_spawns : ℤ

-- The defaults: 5.0, 10.0, 3, 15.0, None and 10.
abbrev pub default_listener : ListenerConfig
default_listener = record {
  listing_interval_s = 0x4014000000000000;
  tracker_interval_s = 0x4024000000000000;
  missing_threshold_cycles = pos 3;
  stats_interval_s = 0x402E000000000000;
  system_stats_interval_s = none;
  max_concurrent_listener_spawns = pos 10;
}

-- The truth value of a float: both zeros are false.
abbrev pub float_truthy : Float → Bool
float_truthy x = not (nat_eq x 0 || nat_eq x (2 ^ 63))

-- self.system_stats_interval_s or self.stats_interval_s
unfoldable pub effective_system_stats_interval_s : ListenerConfig → Float
effective_system_stats_interval_s c = elim c.system_stats_interval_s [
  | none ↦ c.stats_interval_s
  | some x ↦ if float_truthy x then x else c.stats_interval_s
]

pub data MetricsSource : Type 0 where
  proc container_aggregate none_source : MetricsSource

pub record MetricsConfig : Type 0 where
  pub enabled : Bool
  pub system_enabled : Bool
  pub cpu_enabled : Bool
  pub memory_enabled : Bool
  pub disk_enabled : Bool
  pub network_enabled : Bool
  pub system_metrics_source : MetricsSource

abbrev pub default_metrics : MetricsConfig
default_metrics = record {
  enabled = true;
  system_enabled = true;
  cpu_enabled = true;
  memory_enabled = true;
  disk_enabled = true;
  network_enabled = true;
  system_metrics_source = proc;
}

pub record RetentionConfig : Type 0 where
  pub retention_days : ℤ
  pub metrics_retention_days : Option ℤ
  pub trim_interval_seconds : Float

-- The defaults: 7, None and 300.0.
abbrev pub default_retention : RetentionConfig
default_retention = record {
  retention_days = pos 7;
  metrics_retention_days = none;
  trim_interval_seconds = 0x4072C00000000000;
}

unfoldable pub effective_metrics_retention_days : RetentionConfig → ℤ
effective_metrics_retention_days c = elim c.metrics_retention_days [
  | none ↦ c.retention_days
  | some days ↦ days
]

pub record LogstashConfig : Type 0 where
  pub host : Text
  pub port : ℤ
  pub database_path : Text

abbrev pub default_logstash : LogstashConfig
default_logstash = record {
  host = codes "127.0.0.1";
  port = pos 5959;
  database_path = codes "/data/logstash-async-buffer.db";
}

pub record RedisConfig : Type 0 where
  pub url : Text

abbrev pub default_redis : RedisConfig
default_redis = record { url = codes "redis://127.0.0.1:6379/0" }

pub record ServerConfig : Type 0 where
  pub bind_host : Text
  pub bind_port : ℤ
  pub page_size_default : ℤ
  pub page_size_max : ℤ

abbrev pub default_server : ServerConfig
default_server = record {
  bind_host = codes "0.0.0.0";
  bind_port = pos 8080;
  page_size_default = pos 200;
  page_size_max = pos 1000;
}

pub record Settings : Type 0 where
  pub daemons : List DaemonConfig
  pub listener : ListenerConfig
  pub metrics : MetricsConfig
  pub retention : RetentionConfig
  pub logstash : LogstashConfig
  pub redis : RedisConfig
  pub server : ServerConfig

abbrev pub default_settings : Settings
default_settings = record {
  daemons = [];
  listener = default_listener;
  metrics = default_metrics;
  retention = default_retention;
  logstash = default_logstash;
  redis = default_redis;
  server = default_server;
}

unfoldable pub enabled_daemons : Settings → List DaemonConfig
enabled_daemons s = filterb (λ d. d.enabled) s.daemons

-- Where pydantic-settings looks for a value; an earlier source overrides a later one.
pub data Source : Type 0 where
  init_settings env_settings dotenv_settings file_secret_settings : Source
  yaml_settings : Text → Source

-- `yaml_path` is os.environ.get(CONFIG_FILE_ENV_VAR), and `is_file` is Path.is_file.
unfoldable pub settings_customise_sources : Option Text → (Text → Bool) → List Source
settings_customise_sources yaml_path is_file =
    let yaml : List Source = elim yaml_path [
      | none ↦ []
      | some path ↦ if truthy path && is_file path then yaml_settings path ∷ [] else []
    ] in
    init_settings ∷ env_settings ∷ dotenv_settings ∷ (yaml ++ file_secret_settings ∷ [])
