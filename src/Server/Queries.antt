-- ===== src/Server/Queries.antt =====
-- packages/log-sump-server/src/log_sump_server/queries.py: one page of one kind of a daemon's
-- records, and the filters behind it.
pub mod Pages
pub mod Complete
pub mod Filters
mod Samples
use mathlib.Core.Option
use log_sump.Base.{
  ℕ, ◌+◌, Bool, false, Option, none, some, List, [], ◌∷◌, ◌++◌, if◌then◌else◌, length, last,
  filterb, map,
}
use log_sump.Base.Int.{ℤ, pos, negsuc, eq_ℤ}
use log_sump.Base.Text.{Text, codes, truthy, ◌==◌, Unicode, has_text, Bytes, Str, bytes}
use log_sump.Base.Dict.{Dict, lookup}
use log_sump.Base.Errors
use log_sump.Base.Errors.{Result, ok, err, index_error, or_raise}
use log_sump.Base.Exec.{Exec, pure, lift, ◌>>=◌}
use log_sump.Common.Schema.{
  DateTime, Kind, Record, log_record, metric_record, RecordAdapter, container_id_of,
}
use log_sump.Common.RedisKeys.{stream_key}
use log_sump.Common.Redis.{Codec, decode_str, RawEntry, Redis}
use log_sump.Base.Numerals.{show_nat}
use log_sump.Common.Redis.Laws.{max_seq}

-- str(n) of an int
unfoldable pub show_int : ℤ → Text
show_int (pos n) = show_nat n
show_int (negsuc n) = b'-' ∷ show_nat (n + 1)

-- `epoch_ms` stands for int(dt.timestamp() * 1000).
unfoldable pub id_floor : (DateTime → ℤ) → DateTime → Text
id_floor epoch_ms dt = show_int (epoch_ms dt) ++ (codes "-" ++ show_nat 0)

unfoldable pub id_ceiling : (DateTime → ℤ) → DateTime → Text
id_ceiling epoch_ms dt = show_int (epoch_ms dt) ++ (codes "-" ++ show_nat max_seq)

-- "({cursor}" if cursor else _id_floor(start)
abbrev pub range_start : (DateTime → ℤ) → Option Text → DateTime → Text
range_start epoch_ms none start = id_floor epoch_ms start
range_start epoch_ms (some cursor) start =
    if truthy cursor then b'(' ∷ cursor else id_floor epoch_ms start

module _ (adapter : RecordAdapter) (codec : Codec) where
  abbrev read_record : Str → Option Record → Result (Option (Text × Record))
  read_record entry_id none = ok none
  read_record entry_id (some record_read) =
      Errors.◌>>=◌ (decode_str codec entry_id) λ i. ok (some (i, record_read))

  abbrev read_data : Str → Option Bytes → Result (Option (Text × Record))
  read_data entry_id none = ok none
  read_data entry_id (some content) = read_record entry_id (adapter.validate_json (bytes content))

  abbrev read_fields : Option Str → Option (Dict Bytes) → Result (Option (Text × Record))
  read_fields (some entry_id) (some fields) = read_data entry_id (lookup (codes "data") fields)
  read_fields none fields = ok none
  read_fields (some entry_id) none = ok none

  -- One round of the loop over the reply; `none` is `continue`.
  abbrev pub read_entry : RawEntry → Result (Option (Text × Record))
  read_entry e = read_fields e.entry_id e.fields

  abbrev pub keep : Option (Text × Record) → List (Text × Record) → List (Text × Record)
  keep none entries = entries
  keep (some entry) entries = entry ∷ entries

  unfoldable pub read_entries : List RawEntry → Result (List (Text × Record))
  read_entries [] = ok []
  read_entries (e ∷ es) =
      Errors.◌>>=◌ (read_entry e)
        λ entry. Errors.◌>>=◌ (read_entries es) λ rest. ok (keep entry rest)

  -- entries[-1][0] if len(raw_entries) == limit else None
  unfoldable pub next_cursor : List (Text × Record) → ℕ → ℤ → Result (Option Text)
  next_cursor entries count limit =
      if eq_ℤ (pos count) limit
      then Errors.◌>>=◌ (or_raise (last entries) index_error) (λ entry. ok (some entry.0))
      else ok none

  unfoldable pub page_of : ℤ → List RawEntry → Result (List (Text × Record) × Option Text)
  page_of limit raw = Errors.◌>>=◌ (read_entries raw) λ entries.
      Errors.◌>>=◌ (next_cursor entries (length raw) limit) λ cursor. ok (entries, cursor)

  unfoldable pub fetch_kind_page :
      (R : Redis)
      → (DateTime → ℤ)
      → Text
      → Kind
      → (start end : DateTime) → Option Text
      → ℤ
      → Exec R.State (List (Text × Record) × Option Text)
  fetch_kind_page R epoch_ms docker_host kind start end cursor limit = do
    reply ←
        R.xrange (stream_key docker_host kind) (range_start epoch_ms cursor start)
          (id_ceiling epoch_ms end) limit
    lift (page_of limit (Option.get_or reply []))

-- getattr(r, "level", None) == level
abbrev has_level : Text → Record → Bool
has_level level (log_record r) = r.level == level
has_level level (metric_record r) = false

-- needle in str(getattr(r, "message", "")).lower()
abbrev has_message : Unicode → Text → Record → Bool
has_message u needle (log_record r) = has_text needle (u.lower r.message)
has_message u needle (metric_record r) = has_text needle (u.lower [])

abbrev filter_if {ℓ} : {A : Type ℓ} → Option A → (A → Record → Bool) → List Record → List Record
filter_if none test records = records
filter_if (some a) test records = filterb (test a) records

unfoldable pub apply_filters :
    Unicode → List Record → (container_id level q : Option Text) → List Record
apply_filters u records container_id level q =
    let by_container = filter_if container_id (λ c r. container_id_of r == c) records in
    let by_level = filter_if level has_level by_container in
    filter_if q (λ text. has_message u (u.lower text)) by_level
