-- ===== src/Listener/Logging.antt =====
-- packages/log-sump-listener/src/log_sump_listener/logging_setup.py: the logger that ships the records.
-- `configure_logging`, and the wrapper that structlog puts around the logger, only format.
use log_sump.Base.{ℕ, Bool, true, false, List, [], ◌∷◌, map}
use log_sump.Base.Int.{ℤ}
use log_sump.Base.Text.{Text}
use log_sump.Common.Config.{LogstashConfig}

-- An AsynchronousLogstashHandler, of python-logstash-async: what it is given, and whether it was told
-- to flush and to close.
pub record Handler : Type 0 where
  pub host : Text
  pub port : ℤ
  pub database_path : Text
  pub flushed : Bool
  pub closed : Bool

-- logging.getLogger(RECORDS_LOGGER_NAME): the one logger of this name, which the process keeps.
pub record RecordsLogger : Type 0 where
  pub level : ℕ
  pub propagate : Bool
  pub handlers : List Handler

-- logging.INFO
abbrev info : ℕ
info = 20

abbrev pub new_handler : LogstashConfig → Handler
new_handler logstash = record {
  host = logstash.host;
  port = logstash.port;
  database_path = logstash.database_path;
  flushed = false;
  closed = false;
}

unfoldable pub build_records_logger : LogstashConfig → RecordsLogger → RecordsLogger
build_records_logger logstash logger = record {
  level = info;
  propagate = false;
  handlers = new_handler logstash ∷ [];
}

-- handler.flush() and handler.close()
abbrev pub shut : Handler → Handler
shut h = record h { flushed = true; closed = true }

unfoldable pub close_records_logger : RecordsLogger → RecordsLogger
close_records_logger logger = record logger { handlers = map shut logger.handlers }
