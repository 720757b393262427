-- ===== src/Server/Samples.antt =====
-- Values that the samples share: two log records, a metric, an adapter that reads and writes them,
-- and a store with their entries.
use log_sump.Base.{ℕ, ◌/◌, refl, true, false, Option, none, some, [], ◌∷◌, if◌then◌else◌}
use log_sump.Base.Int.{ℤ, pos}
use log_sump.Base.Text.{Text, codes, ◌==◌, Bytes, Str, bytes, text}
use log_sump.Common.Schema.{
  DateTime, RecordBase, Record, log_record, metric_record, stdout, container, null, RecordAdapter,
}
use log_sump.Common.Redis.{Codec}
use log_sump.Common.Redis.Laws.{Entry}

abbrev pub utc : ℕ → DateTime
utc micros = record { micros = micros; aware = true }

abbrev base_at : DateTime → RecordBase
base_at ts = record {
  docker_host = codes "h";
  container_name = codes "web";
  container_id = codes "c1";
  ts = ts;
  seq = pos 1;
}

abbrev pub log_at : DateTime → Text → Record
log_at ts message = log_record (record {
  base = base_at ts;
  stream = stdout;
  level = codes "info";
  message = message;
  fields = [];
  raw = message;
})

abbrev pub metric_at : ℕ → Record
metric_at micros = metric_record (record {
  base = base_at (utc micros);
  metric_scope = container;
  cpu_pct = none;
  mem_used_bytes = none;
  mem_limit_bytes = none;
  mem_pct = none;
  net_rx_bytes = none;
  net_tx_bytes = none;
  blk_read_bytes = none;
  blk_write_bytes = none;
  pids = none;
  system_info = none;
  source = codes "docker stats";
  raw = null;
})

abbrev pub early : Record
early = log_at (utc 1000) (codes "up")

abbrev pub late : Record
late = log_at (utc 3000) (codes "Down")

-- A record whose time has no time zone.
abbrev pub naive : Record
naive = log_at (record { micros = 2500; aware = false }) (codes "n")

abbrev pub sampled : Record
sampled = metric_at 2000

-- Writes a log record as its message, and a metric as one letter.
abbrev dump : Record → Bytes
dump (log_record r) = r.message
dump (metric_record r) = codes "m"

abbrev read : Bytes → Option Record
read b =
    if b == codes "up"
    then some early
    else if b == codes "Down"
    then some late
    else if b == codes "m"
    then some sampled
    else if b == codes "n"
    then some naive
    else none

abbrev validate : Str → Option Record
validate (bytes b) = read b
validate (text t) = read t

abbrev pub adapter : RecordAdapter
adapter = record { validate_json = validate; dump_json = dump }

abbrev pub codec : Codec
codec = record { decode = some; decode_ascii = λ b h. refl }

abbrev pub entry_at : ℕ → Bytes → Entry
entry_at ms content = record {
  id = record { ms = ms; seq = 0 };
  fields = (codes "data", content) ∷ [];
}

abbrev pub epoch_ms : DateTime → ℤ
epoch_ms t = pos (t.micros / 1000)
