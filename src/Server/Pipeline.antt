-- ===== src/Server/Pipeline.antt =====
-- From the ingest list to the answer of a query: ingest/consumer.py and queries.py together, in
-- packages/log-sump-server/src/log_sump_server.
mod Samples
use log_sump.Base.{
  ℕ, suc, ◌*◌, ◌≤◌, ◌≡◌, ◌≢◌, refl, sym, ap, ◌∙◌, Option, none, some, List, [], ◌∷◌, ◌++◌, map,
  map-append, filterb, Bool, true, false, if◌then◌else◌, All, All-append, All-filter, length, arith,
}
use log_sump.Base.Int.{pos}
use log_sump.Base.Text.{Text, codes, bytes, text_discrete, ◌==◌, ==_refl}
use log_sump.Base.Dict.{lookup}
use log_sump.Common.Schema.{
  Record, RecordAdapter, RoundTrips, Kind, log, metric, log_record, metric_record,
}
use log_sump.Common.RedisKeys.{ingest_list, stream_key}
use log_sump.Common.RedisKeys.Distinct.{stream_key-injective}
use log_sump.Common.Redis.{Codec, Redis}
use log_sump.Common.Redis.Laws.{Entry, IsRedis}
use log_sump.Server.Queries.{keep}
use log_sump.Server.Queries.Pages.{IsReadable, record_in, records_of}
use log_sump.Server.Ingest.Consumer.{key_of, run_consumer}
use log_sump.Server.Ingest.Consumer.Batches.{records_in, written, Appended}
use log_sump.Server.Ingest.Consumer.Draining.{Answers, run_consumer-drains}

-- The records of a daemon and a kind.
abbrev pub belongs : Text → Kind → Record → Bool
belongs host log (log_record r) = host == r.base.docker_host
belongs host log (metric_record r) = false
belongs host metric (log_record r) = false
belongs host metric (metric_record r) = host == r.base.docker_host

==-alike : (a b c d : Text) → (a ≡ b → c ≡ d) → (c ≡ d → a ≡ b) → (a == b) ≡ (c == d)
==-alike a b c d f g = elim (text_discrete a b) [
  | yes p ↦ let q = f p in ground (arith, p, q)
  | no p ↦ let q : c ≢ d = λ e. p (g e) in ground (arith, p, q)
]

-- Two keys are the same where the daemons are, for one kind, and never for two.
same_keys :
    (host other : Text) (kind : Kind)
    → (stream_key host kind == stream_key other kind) ≡ (host == other)
same_keys host other kind =
    ==-alike (stream_key host kind) (stream_key other kind) host other
      (λ e. (stream_key-injective host other kind kind e).0) (ap (λ h. stream_key h kind))

other_keys :
    (host other : Text) (kind kind' : Kind)
    → kind ≢ kind'
    → (stream_key host kind == stream_key other kind') ≡ false
other_keys host other kind kind' differ =
    let keys : stream_key host kind ≢ stream_key other kind' =
      λ e. differ (stream_key-injective host other kind kind' e).1 in
    ground (arith, keys)

-- They are those with the key of the stream of this daemon and kind.
key-belongs :
    (host : Text) (kind : Kind) (r : Record)
    → (stream_key host kind == key_of r) ≡ belongs host kind r
key-belongs host log (log_record r) = same_keys host r.base.docker_host log
key-belongs host log (metric_record r) = other_keys host r.base.docker_host log metric (λ e. cc)
key-belongs host metric (log_record r) = other_keys host r.base.docker_host metric log (λ e. cc)
key-belongs host metric (metric_record r) = same_keys host r.base.docker_host metric

keys-belong :
    (host : Text) (kind : Kind) (rs : List Record)
    → filterb (λ r. stream_key host kind == key_of r) rs ≡ filterb (belongs host kind) rs
keys-belong host kind [] = refl
keys-belong host kind (r ∷ rs) = ground (arith, key-belongs host kind r, keys-belong host kind rs)

module _ (adapter : RecordAdapter) (codec : Codec) where
  -- The records that the entries of a stream hold.
  abbrev pub stored : List Entry → List Record
  stored es = map (λ e. e.1) (records_of adapter codec es)

  dumped-IsReadable :
      (e : Entry) (r : Record)
      → e.fields ≡ (codes "data", adapter.dump_json r) ∷ []
      → RoundTrips adapter r
      → IsReadable adapter codec e
  unfolding lookup text_discrete
  dumped-IsReadable e r f h = record {
    content = adapter.dump_json r;
    held = rw f refl;
    the_record = r;
    valid = h;
  }

  stored-one :
      (e : Entry) (r : Record) (es : List Entry)
      → e.fields ≡ (codes "data", adapter.dump_json r) ∷ []
      → RoundTrips adapter r
      → stored (e ∷ es) ≡ r ∷ stored es
  unfolding records_of record_in lookup text_discrete
  stored-one e r es f h = rw f (rw h refl)

  stored-append : (xs ys : List Entry) → stored (xs ++ ys) ≡ stored xs ++ stored ys
  unfolding records_of
  stored-append [] ys = refl
  stored-append (x ∷ xs) ys = ground (arith, stored-append xs ys)

  -- Entries whose fields are those of some dumped records hold these records.
  dumped-stored :
      (es : List Entry) (rs : List Record)
      → map (λ e. e.fields) es ≡ map (λ r. (codes "data", adapter.dump_json r) ∷ []) rs
      → All (RoundTrips adapter) rs
      → All (IsReadable adapter codec) es × (stored es ≡ rs)
  unfolding records_of
  dumped-stored [] [] f h = (tt, refl)
  dumped-stored [] (r ∷ rs) f h = cc
  dumped-stored (e ∷ es) [] f h = cc
  dumped-stored (e ∷ es) (r ∷ rs) f (h, hs) =
      let first : e.fields ≡ (codes "data", adapter.dump_json r) ∷ [] = cc in
      let others : map (λ x. x.fields) es ≡ map (λ x. (codes "data", adapter.dump_json x) ∷ []) rs =
        cc in
      let (readable, same) = dumped-stored es rs others hs in
      ((dumped-IsReadable e r first h, readable), stored-one e r es first h ∙ ap (λ x. r ∷ x) same)

  -- A stream to which the dumps of some records were added, behind what it held.
  Appended-stored :
      (k : Text) (before later : List Entry) (rs : List Record)
      → Appended before later (written adapter k rs)
      → All (RoundTrips adapter) rs
      → stored later ≡ stored before ++ filterb (λ r. k == key_of r) rs
  Appended-stored k before later rs added h =
      let (readable, same) =
        dumped-stored added.new (filterb (λ r. k == key_of r) rs) added.holds
          (All-filter (RoundTrips adapter) _ rs h) in
      ap stored added.behind ∙ stored-append before added.new ∙ ap (λ xs. stored before ++ xs) same

  Appended-IsReadable :
      (k : Text) (before later : List Entry) (rs : List Record)
      → Appended before later (written adapter k rs)
      → All (RoundTrips adapter) rs
      → All (IsReadable adapter codec) before
      → All (IsReadable adapter codec) later
  Appended-IsReadable k before later rs added h readable =
      let (new, same) =
        dumped-stored added.new (filterb (λ r. k == key_of r) rs) added.holds
          (All-filter (RoundTrips adapter) _ rs h) in
      rw added.behind (All-append _ before added.new readable new)

module _ (adapter : RecordAdapter) (codec : Codec) (R : Redis) (laws : IsRedis R)
    (answers : Answers R) (n : ℕ) where
  abbrev pub drained : ℕ → R.State → R.State
  drained rounds s = (run_consumer adapter R rounds (pos (suc n)) s).1

  -- While Redis answers, and where each valid record of the ingest list survives a dump and a
  -- validation: once the consumer's rounds could have taken the whole list, with a batch size of
  -- n + 1, every stream holds, behind the records it held, exactly the list's valid records of its
  -- daemon and kind, in the order of the list.
  pub run_consumer-stored :
      (rounds : ℕ) (s : R.State) (docker_host : Text) (kind : Kind)
      → length (laws.queue s ingest_list) ≤ rounds * suc n
      → All (RoundTrips adapter) (records_in adapter (laws.queue s ingest_list))
      → stored adapter codec (laws.stream (drained rounds s) (stream_key docker_host kind))
        ≡ stored adapter codec (laws.stream s (stream_key docker_host kind))
          ++ filterb (belongs docker_host kind) (records_in adapter (laws.queue s ingest_list))
  run_consumer-stored rounds s host kind enough h =
      let (returned, emptied, added) =
        run_consumer-drains adapter R laws answers n rounds s enough in
      Appended-stored adapter codec (stream_key host kind) _ _ _ (added (stream_key host kind)) h
      ∙ ap (λ rs. stored adapter codec (laws.stream s (stream_key host kind)) ++ rs)
          (keys-belong host kind (records_in adapter (laws.queue s ingest_list)))

  -- While Redis answers, and where each valid record of the ingest list survives a dump and a
  -- validation: once the consumer's rounds could have taken the whole list, with a batch size of
  -- n + 1, a stream of which every entry holds a valid record, which is what
  -- paging through it relies on, is still such a stream.
  pub run_consumer-IsReadable :
      (rounds : ℕ) (s : R.State) (docker_host : Text) (kind : Kind)
      → length (laws.queue s ingest_list) ≤ rounds * suc n
      → All (RoundTrips adapter) (records_in adapter (laws.queue s ingest_list))
      → All (IsReadable adapter codec) (laws.stream s (stream_key docker_host kind))
      → All
          (IsReadable adapter codec)
          (laws.stream (drained rounds s) (stream_key docker_host kind))
  run_consumer-IsReadable rounds s host kind enough h readable =
      let (returned, emptied, added) =
        run_consumer-drains adapter R laws answers n rounds s enough in
      Appended-IsReadable adapter codec (stream_key host kind) _ _ _ (added (stream_key host kind))
        h readable
