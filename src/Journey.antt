-- ===== src/Journey.antt =====
-- From the output of a container to a client of the server: _merge_streams of
-- packages/log-sump-common/src/log_sump_common/transport.py, container_listener.py of
-- packages/log-sump-listener/src/log_sump_listener, and ingest/consumer.py and queries.py of
-- packages/log-sump-server/src/log_sump_server, together.
mod Samples
use log_sump.Base.{
  ℕ, suc, ◌*◌, ◌≤◌, ◌<◌, ◌≡◌, refl, sym, ap, ◌∙◌, Bool, true, false, ◌&&◌, Option, none, some, List,
  [], ◌∷◌, ◌++◌, map, filterb, filterb-append, filterb-filterb, filter-All, All, length,
  if◌then◌else◌, Option-cases, inl, inr, arith,
}
use log_sump.Base.Int.{ℤ, pos}
use log_sump.Base.Text.{Text, ◌==◌, ==_refl}
use log_sump.Common.Schema.{
  Record, RecordAdapter, RoundTrips, LogRecord, log_record, log, StreamName, container_id_of,
  DateTime,
}
use log_sump.Common.RedisKeys.{ingest_list, stream_key}
use log_sump.Common.Redis.{Codec, Redis}
use log_sump.Common.Redis.Laws.{Entry, IsRedis}
use log_sump.Common.Transport.{StreamLine}
use log_sump.Common.Transport.Merge.{same_stream, Merge, start, Steps}
use log_sump.Common.Transport.Merge.Order.{texts}
use log_sump.Common.Transport.Merge.Complete.{Steps-complete}
use log_sump.Listener.ContainerListener.{
  Library, partition_space, replace_z, parse_line, listen, run_container_listener, dated, ship,
}
use log_sump.Server.Ingest.Consumer.{run_consumer}
use log_sump.Server.Ingest.Consumer.Batches.{records_in}
use log_sump.Server.Ingest.Consumer.Draining.{Answers}
use log_sump.Server.Pipeline.{
  belongs, stored, run_consumer-stored, run_consumer-IsReadable, drained,
}
use log_sump.Server.Queries.Complete as Queries
use log_sump.Server.Queries.Complete.{in_time, follow_cursors_complete}
use log_sump.Server.Queries.Pages.{IsReadable, records_of, follow_cursors}
use log_sump.Base.Errors.{ok}

-- The texts of the records that come from one output stream.
abbrev pub raws : StreamName → List LogRecord → List Text
raws n [] = []
raws n (r ∷ rs) = if same_stream n r.stream then r.raw ∷ raws n rs else raws n rs

module _ (lib : Library) where
  -- Does a line begin with a timestamp?
  abbrev is_dated : Option DateTime → Bool
  is_dated none = false
  is_dated (some t) = true

  abbrev pub has_time : Text → Bool
  has_time t = is_dated (lib.fromisoformat (replace_z (partition_space t).0))

  module _ (host id name : Text) where
    dated-raws :
        (n : StreamName) (line : StreamLine) (seq : ℕ) (t : Option DateTime) (payload : Text)
        (rs : List LogRecord)
        → raws n (ship lib (dated lib host id name line seq t payload) rs)
          ≡ (if same_stream n line.stream && is_dated t then line.text ∷ raws n rs else raws n rs)
    dated-raws n line seq none payload rs = ground arith
    dated-raws n line seq (some t) payload rs = ground arith

    listen-raws :
        (n : StreamName) (seq : ℕ) (lines : List StreamLine)
        → raws n (listen lib host id name seq lines) ≡ filterb has_time (texts n lines)
    unfolding listen parse_line
    listen-raws n seq [] = refl
    listen-raws n seq (line ∷ lines) = ground (
      arith,
      listen-raws n (suc seq) lines,
      dated-raws n line seq (lib.fromisoformat (replace_z (partition_space line.text).0))
          (partition_space line.text).1 (listen lib host id name (suc seq) lines),
    )

-- What Logstash does between the listener and the ingest list: of this container, the list has the
-- records that were logged, in their order, among whatever else.
abbrev pub Shipped :
    (adapter : RecordAdapter) (R : Redis)
    → IsRedis R
    → (host id : Text) → List LogRecord
    → R.State
    → Type 0
Shipped adapter R laws host id logged s =
    filterb (λ r. belongs host log r && container_id_of r == id)
      (records_in adapter (laws.queue s ingest_list))
    ≡ map log_record logged

module _ (lib : Library) (adapter : RecordAdapter) (codec : Codec) (R : Redis) (laws : IsRedis R)
    (answers : Answers R) (n : ℕ) (host id name : Text) where
  -- The records of the container that the stream of logs holds.
  abbrev pub held : R.State → List Record
  held s =
      filterb (λ r. container_id_of r == id)
        (stored adapter codec (laws.stream s (stream_key host log)))

  -- However the two pumps and the generator of the container's command interleave: if Logstash puts
  -- the records that were logged onto the ingest list as they are and in their order, among whatever
  -- else, if the list's valid records survive a dump and a validation, and while Redis answers, then
  -- enough rounds of the consumer leave the daemon's stream of logs holding, of this container, what it
  -- held and behind it the logged records; and these are, of the lines of each output stream, those
  -- that begin with a timestamp, each once, whole and in the stream's order.
  pub lines-held :
      (lines : StreamName → List Text) (k rounds : ℕ) (m : Merge) (s : R.State)
      → Steps k (start lines) m
      → m.remaining ≡ 0
      → Shipped adapter R laws host id (run_container_listener lib host id name m.yielded) s
      → All (RoundTrips adapter) (records_in adapter (laws.queue s ingest_list))
      → length (laws.queue s ingest_list) ≤ rounds * suc n
      → (held (drained adapter codec R laws answers n rounds s)
          ≡ held s ++ map log_record (run_container_listener lib host id name m.yielded))
        × ((stream : StreamName)
            → raws stream (run_container_listener lib host id name m.yielded)
              ≡ filterb (has_time lib) (lines stream))
  unfolding run_container_listener
  lines-held lines k rounds m s run ended shipped survive enough = (
    ap (filterb (λ r. container_id_of r == id))
          (run_consumer-stored adapter codec R laws answers n rounds s host log enough survive)
        ∙ filterb-append (λ r. container_id_of r == id) _ _
        ∙ ap (λ rs. held s ++ rs)
            (filterb-filterb (λ r. container_id_of r == id) (belongs host log)
                (records_in adapter (laws.queue s ingest_list))
              ∙ shipped),
    λ stream.
        listen-raws lib host id name stream 1 m.yielded
        ∙ ap (filterb (has_time lib)) (Steps-complete lines k m stream run ended),
  )

-- To the client: a range of times that covers the stream of logs.
module _ (lib : Library) (adapter : RecordAdapter) (codec : Codec) (R : Redis) (laws : IsRedis R)
    (answers : Answers R) (n : ℕ) (host id name : Text) (epoch_ms : DateTime → ℤ)
    (first last : DateTime) (from_ms to_ms : ℕ) (starts : epoch_ms first ≡ pos from_ms)
    (ends : epoch_ms last ≡ pos to_ms) (limit : ℕ) where
  -- The records of the container among those of some entries.
  abbrev pub of_container : List (Text × Record) → List Record
  of_container found = filterb (λ r. container_id_of r == id) (map (λ e. e.1) found)

  -- However the two pumps and the generator of the container's command interleave: if Logstash puts
  -- the records that were logged onto the ingest list as they are and in their order, among whatever
  -- else, if the list's valid records survive a dump and a validation, if each entry of the daemon's
  -- stream of logs held a valid record before, and while Redis answers, then enough rounds of the
  -- consumer lead to this: if the times of all entries that the stream then holds are in a range, a
  -- client that asks for the range and hands each cursor back, for more pages than there are entries,
  -- gets of this container the records that the stream held before and behind them the logged ones; and
  -- these are, of the lines of each output stream, those that begin with a timestamp, each once, whole
  -- and in the stream's order.
  pub lines-read :
      (lines : StreamName → List Text) (k rounds fuel : ℕ) (m : Merge) (s : R.State)
      → Queries.Answers adapter codec R laws epoch_ms host log first last from_ms to_ms starts ends
          limit
      → All (IsReadable adapter codec) (laws.stream s (stream_key host log))
      → All
          (λ e. in_time from_ms to_ms e ≡ true)
          (laws.stream (drained adapter codec R laws answers n rounds s) (stream_key host log))
      → length (laws.stream (drained adapter codec R laws answers n rounds s) (stream_key host log))
        < fuel
      → Steps k (start lines) m
      → m.remaining ≡ 0
      → Shipped adapter R laws host id (run_container_listener lib host id name m.yielded) s
      → All (RoundTrips adapter) (records_in adapter (laws.queue s ingest_list))
      → length (laws.queue s ingest_list) ≤ rounds * suc n
      → (found : List (Text × Record)) × ((follow_cursors adapter codec R epoch_ms host log first
            last fuel
            (pos (suc limit))
            none
            (drained adapter codec R laws answers n rounds s)).0
          ≡ ok found)
        × (of_container found
            ≡ held lib adapter codec R laws answers n host id name s
              ++ map log_record (run_container_listener lib host id name m.yielded))
        × ((stream : StreamName)
            → raws stream (run_container_listener lib host id name m.yielded)
              ≡ filterb (has_time lib) (lines stream))
  lines-read lines k rounds fuel m s xrange readable timely short run ended shipped survive enough =
      let s' = drained adapter codec R laws answers n rounds s in
      let es = laws.stream s' (stream_key host log) in
      let all = filter-All (in_time from_ms to_ms) es timely in
      let (kept, texts_kept) =
        lines-held lib adapter codec R laws answers n host id name lines k rounds m s run ended
          shipped survive enough in
      (
        records_of adapter codec es,
        follow_cursors_complete adapter codec R laws epoch_ms host log first last from_ms to_ms
              starts ends limit xrange fuel s'
              (run_consumer-IsReadable adapter codec R laws answers n rounds s host log enough
                survive readable)
              (omega (arith, ap length all))
            ∙ ap (λ es. ok (records_of adapter codec es)) all,
        kept,
        texts_kept,
      )
