-- ===== src/Server/Records/Timeline.antt =====
-- What GET /records of packages/log-sump-server/src/log_sump_server/routers/records.py answers.
use mathlib.Core.List.{Perm}
use log_sump.Base.{
  ℕ, ◌≡◌, ◌↔◌, refl, Bool-cases, inl, inr, arith, true, false, List, filterb, nat_eq,
}
use log_sump.Base.Int.{ℤ}
use log_sump.Base.Text.{Text, Unicode, contains}
use log_sump.Base.Errors.{Result, ok, err, http_error, type_error}
use log_sump.Common.Schema.{DateTime, Record, RecordAdapter}
use log_sump.Common.Redis.{Codec, Redis}
use log_sump.Common.Config.{Settings}
use log_sump.Server.Deps.{require_daemon_access}
use log_sump.Server.Queries.{apply_filters}
use log_sump.Server.Queries.Filters.{passes, apply_filters_lem}
use log_sump.Server.Records.{RecordsPage, RecordsQuery, Fetched, fetch_kinds, get_records}
use log_sump.Server.Records.Mixed.{is_mixed, sorted_by_ts_lem, Mixes, is_mixed_iff}
use log_sump.Server.Records.Sorting.{
  micros_of, IsSorted, sort_in_order, sort-IsSorted, sort-perm, sort_stable, filter-IsSorted,
}

-- A page against what was fetched: all of it and nothing else, in the order of time, records of one
-- time in the order in which they were fetched, less what the filters drop.
pub record IsTimeline (u : Unicode) (query : RecordsQuery) (fetched : Fetched) (page : RecordsPage)
    : Type 0 where
  pub timeline : List Record
  pub same : Perm timeline fetched.all_records
  pub stable :
      (t : ℕ)
      → filterb (λ r. nat_eq (micros_of r) t) timeline
        ≡ filterb (λ r. nat_eq (micros_of r) t) fetched.all_records
  pub filtered : page.records ≡ filterb (passes u query.container_id query.level query.q) timeline
  pub sorted : IsSorted page.records
  pub log_cursor : page.next_log_cursor ≡ fetched.log_next
  pub metric_cursor : page.next_metric_cursor ≡ fetched.metric_next

module _ (adapter : RecordAdapter) (codec : Codec) (u : Unicode) (R : Redis)
    (epoch_ms : DateTime → ℤ) (settings : Settings) (now : DateTime) (query : RecordsQuery)
    (permitted : List Text) (s : R.State) where
  abbrev answer : Result RecordsPage × R.State
  answer = get_records adapter codec u R epoch_ms settings now query permitted s

  -- A request for a daemon that the key does not permit gets 403, and Redis is not asked.
  pub get_records-forbidden :
      contains permitted query.docker_host ≡ false → answer ≡ (err (http_error 403), s)
  unfolding get_records require_daemon_access
  get_records-forbidden h = rw h

  abbrev built : Fetched → RecordsPage
  built fetched = record {
    records =
        apply_filters u (sort_in_order fetched.all_records) query.container_id query.level query.q;
    next_log_cursor = fetched.log_next;
    next_metric_cursor = fetched.metric_next;
  }

  built-IsTimeline : (fetched : Fetched) → IsTimeline u query fetched (built fetched)
  built-IsTimeline fetched =
      let sorted = sort_in_order fetched.all_records in
      let kept = apply_filters_lem u query.container_id query.level query.q sorted in
      record {
        timeline = sorted;
        same = sort-perm fetched.all_records;
        stable = λ t. sort_stable t fetched.all_records;
        filtered = kept;
        sorted = rw kept (filter-IsSorted _ sorted (sort-IsSorted fetched.all_records));
        log_cursor = refl;
        metric_cursor = refl;
      }

  -- For a permitted daemon, where the fetches return and their records all have a time zone or all
  -- have none, the request returns a page: the fetched records that meet the filters, in the order of
  -- time, with the two cursors of the fetches.
  pub get_records-IsTimeline :
      (fetched : Fetched)
      → contains permitted query.docker_host ≡ true
      → (fetch_kinds adapter codec u R epoch_ms settings now query s).0 ≡ ok fetched
      → is_mixed fetched.all_records ≡ false
      → (page : RecordsPage) × (answer.0 ≡ ok page) × IsTimeline u query fetched page
  unfolding get_records require_daemon_access
  get_records-IsTimeline fetched allowed got alike = (
    built fetched,
    rw allowed (rw got (rw (sorted_by_ts_lem fetched.all_records) (rw alike))),
    built-IsTimeline fetched,
  )

  -- Of a permitted daemon, where the fetches return, the request raises TypeError exactly if some
  -- fetched record has a time zone and another has none, whatever the filters would drop.
  pub get_records-mixed :
      (fetched : Fetched)
      → contains permitted query.docker_host ≡ true
      → (fetch_kinds adapter codec u R epoch_ms settings now query s).0 ≡ ok fetched
      → (answer.0 ≡ err type_error) ↔ Mixes fetched.all_records
  unfolding get_records require_daemon_access
  get_records-mixed fetched allowed got =
      let same = sorted_by_ts_lem fetched.all_records in
      elim (Bool-cases (is_mixed fetched.all_records)) [
        | inl m ↦ (
          (λ e. (is_mixed_iff fetched.all_records).0 m),
          λ e. rw allowed (rw got (rw same (rw m refl))),
        )
        | inr m ↦ (
          (λ e. absurd (ground (arith, e, allowed, got, same, m))),
          λ e. absurd (let b = (is_mixed_iff fetched.all_records).1 e in ground (arith, b, m)),
        )
      ]
