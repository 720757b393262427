-- ===== src/Common/Schema.antt =====
-- packages/log-sump-common/src/log_sump_common/schema.py: the record that every captured line and
-- every sampled metric is normalised to.
use log_sump.Base.{ℕ, ◌≡◌, Bool, Option, some}
use log_sump.Base.Int.{ℤ}
use log_sump.Base.Text.{Text, Bytes, Str, bytes, codes}
use log_sump.Base.Dict.{Dict}

-- A float, by the 64 bits of its IEEE 754 double; arithmetic on floats is a parameter where it is
-- used.
abbrev pub Float : Type 0
Float = ℕ

-- The value of json.loads.
mutual
  pub data Json : Type 0 where
    null : Json
    boolean : Bool → Json
    int : ℤ → Json
    float : Float → Json
    str : Text → Json
    arr : Items → Json
    obj : Fields → Json

  pub data Items : Type 0 where
    nil : Items
    cons : Json → Items → Items

  pub data Fields : Type 0 where
    end : Fields
    field : Text → Json → Fields → Fields

-- A datetime: the microseconds that its own order compares, and whether it has a time zone.
pub record DateTime : Type 0 where
  pub micros : ℕ
  pub aware : Bool

abbrev pub system_scope_id : Text
system_scope_id = codes "__system__"

pub data Kind : Type 0 where
  log metric : Kind

abbrev pub kind_value : Kind → Text
kind_value log = codes "log"
kind_value metric = codes "metric"

pub data StreamName : Type 0 where
  stdout stderr : StreamName

pub data MetricScope : Type 0 where
  container system : MetricScope

pub record RecordBase : Type 0 where
  pub docker_host : Text
  pub container_name : Text
  pub container_id : Text
  pub ts : DateTime
  pub seq : ℤ

pub record LogRecord : Type 0 where
  pub base : RecordBase
  pub stream : StreamName
  pub level : Text
  pub message : Text
  pub fields : Dict Json
  pub raw : Text

pub record MetricRecord : Type 0 where
  pub base : RecordBase
  pub metric_scope : MetricScope
  pub cpu_pct : Option Float
  pub mem_used_bytes : Option ℤ
  pub mem_limit_bytes : Option ℤ
  pub mem_pct : Option Float
  pub net_rx_bytes : Option ℤ
  pub net_tx_bytes : Option ℤ
  pub blk_read_bytes : Option ℤ
  pub blk_write_bytes : Option ℤ
  pub pids : Option ℤ
  pub system_info : Option (Dict Json)
  pub source : Text
  pub raw : Json

-- The union, discriminated by `kind`.
pub data Record : Type 0 where
  log_record : LogRecord → Record
  metric_record : MetricRecord → Record

abbrev pub record_base : Record → RecordBase
record_base (log_record r) = r.base
record_base (metric_record r) = r.base

abbrev pub record_kind : Record → Kind
record_kind (log_record r) = log
record_kind (metric_record r) = metric

-- r.docker_host, r.container_id and r.ts of either variant
abbrev pub docker_host_of : Record → Text
docker_host_of r = (record_base r).docker_host

abbrev pub container_id_of : Record → Text
container_id_of r = (record_base r).container_id

abbrev pub ts_of : Record → DateTime
ts_of r = (record_base r).ts

-- RecordAdapter, which is pydantic's: `validate_json` is `none` where it raises ValidationError.
pub record RecordAdapter : Type 0 where
  pub validate_json : Str → Option Record
  pub dump_json : Record → Bytes

-- What was dumped reads back.
abbrev pub RoundTrips : RecordAdapter → Record → Type 0
RoundTrips adapter r = adapter.validate_json (bytes (adapter.dump_json r)) ≡ some r
