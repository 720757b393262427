-- ===== src/Server/Queries/Samples.antt =====
-- Pages and filters at concrete stores.
use log_sump.Base.{◌≡◌, refl, none, some, [], ◌∷◌, filterb, arith}
use log_sump.Base.Int.{pos}
use log_sump.Base.Text.{codes, text_discrete, ascii_only, has_text}
use log_sump.Base.Dict.{lookup}
use log_sump.Base.Errors.{ok, err, index_error}
use log_sump.Common.Schema.{log}
use log_sump.Base.Numerals.{show_nat}
use log_sump.Common.Redis.StreamId.{render}
use log_sump.Common.Redis.Memory.{Store, Stream, empty_store, memory, memory-IsRedis}
use log_sump.Server.Samples.{early, late, sampled, adapter, codec, entry_at, utc, epoch_ms}
use log_sump.Server.Queries.{fetch_kind_page, apply_filters}
use log_sump.Server.Queries.Pages.{records_of, record_in, follow_cursors}
use log_sump.Server.Queries.Complete.{in_time, follow_cursors_complete, fetch_kind_page-malformed}

abbrev two : Stream
two = record {
  entries = entry_at 1 (codes "up") ∷ entry_at 3 (codes "Down") ∷ [];
  is_ascending = ((refl, tt), (tt, tt));
  is_bounded = omega arith;
}

abbrev store : Store
store = record empty_store { streams = λ k. two }

follow_cursors_complete_example :
    (follow_cursors adapter codec memory epoch_ms
      (codes "h")
      log
      (utc 1000)
      (utc 3000)
      3
      (pos 1)
      none
      store).0
    ≡ ok (records_of adapter codec (filterb (in_time 1 3) two.entries))
unfolding lookup text_discrete memory-IsRedis
follow_cursors_complete_example =
    follow_cursors_complete adapter codec memory memory-IsRedis epoch_ms (codes "h") log (utc 1000)
      (utc 3000) 1 3 refl refl 0 (λ s low. (_, refl)) 3 store
      (
        record { content = codes "up"; held = refl; the_record = early; valid = refl },
        (record { content = codes "Down"; held = refl; the_record = late; valid = refl }, tt),
      )
      (omega arith)

records_test :
    records_of adapter codec two.entries ≡ (codes "1-0", early) ∷ (codes "3-0", late) ∷ []
unfolding records_of record_in lookup text_discrete render show_nat
records_test = refl

abbrev broken : Stream
broken = record {
  entries = entry_at 1 (codes "?") ∷ entry_at 3 (codes "up") ∷ [];
  is_ascending = ((refl, tt), (tt, tt));
  is_bounded = omega arith;
}

fetch_kind_page-malformed_example :
    (fetch_kind_page adapter codec memory epoch_ms
      (codes "h")
      log
      (utc 1000)
      (utc 3000)
      none
      (pos 1)
      (record empty_store { streams = λ k. broken })).0
    ≡ err index_error
unfolding records_of record_in lookup text_discrete memory-IsRedis
fetch_kind_page-malformed_example =
    fetch_kind_page-malformed adapter codec memory memory-IsRedis epoch_ms (codes "h") log
      (utc 1000) (utc 3000) 1 3 refl refl 0 (λ s low. (_, refl)) none
      (record empty_store { streams = λ k. broken }) refl refl

filters_test :
    apply_filters ascii_only (early ∷ sampled ∷ late ∷ []) none none (some (codes "DOWN"))
    ≡ late ∷ []
unfolding apply_filters has_text
filters_test = refl
