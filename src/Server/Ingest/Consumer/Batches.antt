-- ===== src/Server/Ingest/Consumer/Batches.antt =====
-- What a batch of packages/log-sump-server/src/log_sump_server/ingest/consumer.py adds to the
-- streams.
use log_sump.Base.{
  ◌≡◌, refl, sym, ap, ◌∙◌, Option, none, some, List, [], ◌∷◌, ◌++◌, map, append-nil, filterb, arith,
}
use log_sump.Base.Text.{Text, Bytes, codes, ◌==◌}
use log_sump.Base.Dict.{Dict}
use log_sump.Base.Errors.{ok}
use log_sump.Common.Schema.{Record, RecordAdapter}
use log_sump.Common.Redis.{Raw, XAdd, Redis}
use log_sump.Common.Redis.Laws.{Entry, IsRedis}
use log_sump.Server.Ingest.Consumer.{
  key_of, add_of, read_item, queued, ingest_batch, execute_if_any,
}

module _ (adapter : RecordAdapter) where
  abbrev keep_record : Option Record → List Record → List Record
  keep_record none rs = rs
  keep_record (some r) rs = r ∷ rs

  -- The records that a batch holds; what is no valid record is left out.
  unfoldable pub records_in : List Raw → List Record
  records_in [] = []
  records_in (item ∷ batch) = keep_record (read_item adapter item) (records_in batch)

  -- What a stream gets of these records: those of its daemon and kind, each dumped under "data".
  abbrev pub written : Text → List Record → List (Dict Bytes)
  written k rs =
      map (λ r. (codes "data", adapter.dump_json r) ∷ []) (filterb (λ r. k == key_of r) rs)

  queued-records_in :
      (batch : List Raw) → queued adapter batch ≡ map (add_of adapter) (records_in batch)
  unfolding queued records_in
  queued-records_in [] = refl
  queued-records_in (item ∷ batch) = ground (arith, queued-records_in batch)

  written-adds :
      (k : Text) (rs : List Record)
      → map (λ a. a.fields) (filterb (λ a. k == a.key) (map (add_of adapter) rs)) ≡ written k rs
  written-adds k [] = refl
  written-adds k (r ∷ rs) = ground (arith, written-adds k rs)

  -- What the commands of a batch are to add to a stream.
  pub adds-written :
      (k : Text) (batch : List Raw)
      → map (λ a. a.fields) (filterb (λ a. k == a.key) (queued adapter batch))
        ≡ written k (records_in batch)
  adds-written k batch =
      ap (λ adds. map (λ a. a.fields) (filterb (λ a. k == a.key) adds)) (queued-records_in batch)
      ∙ written-adds k (records_in batch)

-- The entries `new` of a stream, behind what it held, hold `fields`.
pub record Appended (before later : List Entry) (fields : List (Dict Bytes)) : Type 0 where
  pub new : List Entry
  pub behind : later ≡ before ++ new
  pub holds : map (λ e. e.fields) new ≡ fields

module _ (adapter : RecordAdapter) (R : Redis) (laws : IsRedis R) where
  execute-Appended :
      (adds : List XAdd) (s : R.State)
      → (execute_if_any adapter R adds s).0 ≡ ok tt
      → (k : Text)
      → Appended
          (laws.stream s k)
          (laws.stream (execute_if_any adapter R adds s).1 k)
          (map (λ a. a.fields) (filterb (λ a. k == a.key) adds))
  execute-Appended [] s done k = record { new = []; behind = sym (append-nil _); holds = refl }
  execute-Appended (a ∷ adds) s done k =
      let (new, behind, holds) = laws.pipeline-added s (a ∷ adds) done k in
      record { new = new; behind = behind; holds = holds }

  -- A batch that was ingested has added, to each stream, an entry for each of the batch's valid
  -- records of that daemon and kind, in the order of the batch, behind what the stream held; what is
  -- no valid record has been dropped.
  pub ingest_batch-Appended :
      (batch : List Raw) (s : R.State)
      → (ingest_batch adapter R batch s).0 ≡ ok tt
      → (k : Text)
      → Appended
          (laws.stream s k)
          (laws.stream (ingest_batch adapter R batch s).1 k)
          (written adapter k (records_in adapter batch))
  unfolding ingest_batch
  ingest_batch-Appended batch s done k =
      let added = execute-Appended (queued adapter batch) s done k in
      record {
        new = added.new;
        behind = added.behind;
        holds = added.holds ∙ adds-written adapter k batch;
      }

  execute-queue :
      (adds : List XAdd) (s : R.State) (k : Text)
      → laws.queue (execute_if_any adapter R adds s).1 k ≡ laws.queue s k
  execute-queue [] s k = refl
  execute-queue (a ∷ adds) s k = laws.pipeline-queue s (a ∷ adds) k

  pub ingest_batch-queue :
      (batch : List Raw) (s : R.State) (k : Text)
      → laws.queue (ingest_batch adapter R batch s).1 k ≡ laws.queue s k
  unfolding ingest_batch
  ingest_batch-queue batch s k = execute-queue (queued adapter batch) s k
