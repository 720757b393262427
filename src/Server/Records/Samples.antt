-- ===== src/Server/Records/Samples.antt =====
-- GET /records at a concrete store.
use log_sump.Base.{◌≡◌, ◌↔◌, refl, none, arith, [], ◌∷◌, if◌then◌else◌}
use log_sump.Base.Int.{eq_ℤ}
use log_sump.Base.Text.{codes, text_discrete, ascii_only, ◌==◌}
use log_sump.Base.Dict.{lookup}
use log_sump.Base.Errors.{ok, err, type_error}
use log_sump.Common.Config.{default_settings}
use log_sump.Common.RedisKeys.{stream_key}
use log_sump.Base.Numerals.{show_nat}
use log_sump.Common.Redis.StreamId.{render}
use log_sump.Common.Redis.Memory.{Store, Stream, empty_store, memory}
use log_sump.Server.Samples.{early, late, sampled, adapter, codec, entry_at, utc, epoch_ms, naive}
use log_sump.Server.Queries.{
  read_entries, page_of, next_cursor, fetch_kind_page, id_floor, id_ceiling, show_int,
}
use log_sump.Server.Records.{RecordsPage, RecordsQuery, Fetched, both, fetch_kinds, get_records}
use log_sump.Server.Deps.{require_daemon_access}
use log_sump.Server.Records.Sort.{insert_by_ts, sorted_by_ts}
use log_sump.Server.Records.Mixed.{Mixes}
use log_sump.Server.Records.Timeline.{IsTimeline, get_records-IsTimeline, get_records-mixed}

abbrev logs : Stream
logs = record {
  entries = entry_at 1 (codes "up") ∷ entry_at 3 (codes "Down") ∷ [];
  is_ascending = ((refl, tt), (tt, tt));
  is_bounded = omega arith;
}

abbrev metrics : Stream
metrics = record {
  entries = entry_at 2 (codes "m") ∷ [];
  is_ascending = (tt, tt);
  is_bounded = omega arith;
}

abbrev store : Store
store = record empty_store {
  streams = λ k. if k == codes "logsump:stream:h:metric" then metrics else logs;
}

abbrev query : RecordsQuery
query = record {
  docker_host = codes "h";
  kind = both;
  container_id = none;
  level = none;
  q = none;
  start = none;
  end_time = none;
  log_cursor = none;
  metric_cursor = none;
  limit = none;
}

abbrev fetched : Fetched
fetched = record { all_records = early ∷ late ∷ sampled ∷ []; log_next = none; metric_next = none }

fetches : Unit {0}
unfolding fetch_kinds fetch_kind_page page_of read_entries next_cursor id_floor id_ceiling show_int
    render show_nat lookup text_discrete stream_key eq_ℤ
fetches = tt

fetch_test :
    (fetch_kinds adapter codec ascii_only memory epoch_ms default_settings (utc 9000) query store).0
    ≡ ok fetched
unfolding fetches
fetch_test = refl

get_records-IsTimeline_example :
    (page : RecordsPage) × ((get_records adapter codec ascii_only memory epoch_ms default_settings
        (utc 9000)
        query
        (codes "h" ∷ [])
        store).0
      ≡ ok page)
    × IsTimeline ascii_only query fetched page
unfolding text_discrete
get_records-IsTimeline_example =
    get_records-IsTimeline adapter codec ascii_only memory epoch_ms default_settings (utc 9000)
      query (codes "h" ∷ []) store fetched refl fetch_test refl

abbrev mixed_logs : Stream
mixed_logs = record {
  entries = entry_at 2 (codes "n") ∷ [];
  is_ascending = (tt, tt);
  is_bounded = omega arith;
}

abbrev mixed_store : Store
mixed_store = record empty_store {
  streams = λ k. if k == codes "logsump:stream:h:metric" then metrics else mixed_logs;
}

abbrev mixed : Fetched
mixed = record { all_records = naive ∷ sampled ∷ []; log_next = none; metric_next = none }

fetch_mixed :
    (fetch_kinds adapter codec ascii_only memory epoch_ms default_settings
      (utc 9000)
      query
      mixed_store).0
    ≡ ok mixed
unfolding fetches
fetch_mixed = refl

get_records-mixed_example :
    ((get_records adapter codec ascii_only memory epoch_ms default_settings
        (utc 9000)
        query
        (codes "h" ∷ [])
        mixed_store).0
      ≡ err type_error)
    ↔ Mixes mixed.all_records
unfolding text_discrete
get_records-mixed_example =
    get_records-mixed adapter codec ascii_only memory epoch_ms default_settings (utc 9000) query
      (codes "h" ∷ []) mixed_store mixed refl fetch_mixed

-- It does raise there.
mixed_test :
    (get_records adapter codec ascii_only memory epoch_ms default_settings
      (utc 9000)
      query
      (codes "h" ∷ [])
      mixed_store).0
    ≡ err type_error
unfolding fetches get_records require_daemon_access sorted_by_ts insert_by_ts
mixed_test = refl
