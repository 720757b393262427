-- ===== src/Journey/Samples.antt =====
-- A container that prints a line with a timestamp and one without, on its two streams.
use log_sump.Base.{
  ◌≡◌, refl, true, some, none, Option, List, [], ◌∷◌, ◌++◌, map, filterb, length, ◌<◌, All,
  if◌then◌else◌, arith,
}
use log_sump.Base.Int.{pos, ◌-ℤ◌}
use log_sump.Base.Text.{Text, codes, Str, bytes, text, text_discrete, ◌==◌}
use log_sump.Base.Dict.{lookup, insert, erase}
use log_sump.Common.Schema.{
  Record, RecordAdapter, RoundTrips, LogRecord, log_record, StreamName, stdout, stderr, log,
}
use log_sump.Common.Redis.{Raw, str}
use log_sump.Common.Redis.Memory.{Store, empty_store, memory, memory-IsRedis}
use log_sump.Common.RedisKeys.{ingest_list, stream_key}
use log_sump.Common.Transport.Merge.{Merge, start, pump, get, pumps, gets, Steps, here, next}
use log_sump.Server.Samples.{utc, codec, epoch_ms}
use log_sump.Server.Queries.Pages.{follow_cursors}
use log_sump.Base.Errors.{ok}
use log_sump.Listener.Samples.{show_json}
use log_sump.Listener.ContainerListener.{
  Library, partition_space, replace_z, parse_line, listen, run_container_listener,
  try_parse_json_object,
}
use log_sump.Server.Queries.Complete.{in_time}
use log_sump.Common.Redis.Memory.Streams.{extend_all, extended, later}
use log_sump.Server.Ingest.Consumer.{
  run_consumer, consumer_cycle, consume_once, ingest_batch, queued,
}
use log_sump.Server.Ingest.Consumer.Batches.{records_in}
use log_sump.Server.Ingest.Consumer.Draining.{Answers}
use log_sump.Server.Pipeline.{drained}
use log_sump.Journey.{raws, has_time, Shipped, held, of_container, lines-read}

abbrev lib : Library
lib = record {
  fromisoformat = λ s. if s == codes "1+00:00" then some (utc 1) else none;
  json_loads = λ s. none;
  show = show_json;
  show_str = λ s. refl;
}

abbrev host : Text
host = codes "h"

abbrev id : Text
id = codes "a"

abbrev name : Text
name = codes "web"

abbrev lines : StreamName → List Text
lines stdout = codes "1Z up" ∷ []
lines stderr = codes "?" ∷ []

abbrev s0 : Merge
s0 = start lines

abbrev s1 : Merge
s1 = pump stdout s0

abbrev s2 : Merge
s2 = pump stderr s1

abbrev s3 : Merge
s3 = pump stdout s2

abbrev s4 : Merge
s4 = pump stderr s3

abbrev s5 : Merge
s5 = get s4

abbrev s6 : Merge
s6 = get s5

abbrev s7 : Merge
s7 = get s6

abbrev s8 : Merge
s8 = get s7

run : Steps 8 s0 s8
unfolding pump get
run = next 7 s0 s1 s8 (pumps s0 stdout refl) (
    next 6 s1 s2 s8 (pumps s1 stderr refl) (
      next 5 s2 s3 s8 (pumps s2 stdout refl) (
        next 4 s3 s4 s8 (pumps s3 stderr refl) (
          next 3 s4 s5 s8 (gets s4 1 refl (cc)) (
            next 2 s5 s6 s8 (gets s5 1 refl (cc)) (
              next 1 s6 s7 s8 (gets s6 1 refl (cc))
                (next 0 s7 s8 s8 (gets s7 0 refl (cc)) (here s8))))))))

ended_test : s8.remaining ≡ 0
unfolding pump get
ended_test = refl

abbrev up : LogRecord
up = record {
  base = record {
    docker_host = host;
    container_name = name;
    container_id = id;
    ts = utc 1;
    seq = pos 1;
  };
  stream = stdout;
  level = codes "info";
  message = codes "up";
  fields = [];
  raw = codes "1Z up";
}

logged_test : run_container_listener lib host id name s8.yielded ≡ up ∷ []
unfolding run_container_listener listen parse_line partition_space replace_z text_discrete lookup
    insert erase try_parse_json_object pump get
logged_test = refl

abbrev validate : Str → Option Record
validate (bytes b) = if b == codes "{up}" then some (log_record up) else none
validate (text t) = none

abbrev adapter : RecordAdapter
adapter = record { validate_json = validate; dump_json = λ r. codes "{up}" }

-- A malformed item, and the record.
abbrev items : List Raw
items = str (bytes (codes "zz")) ∷ str (bytes (codes "{up}")) ∷ []

abbrev store : Store
store = record empty_store { queues = λ k. items }

memory-Answers : Answers memory
memory-Answers = record {
  blpop = λ s. (_, refl);
  lpop = λ s n. (_, refl);
  pipeline = λ s adds. refl;
}

items-RoundTrips : All (RoundTrips adapter) (records_in adapter items)
unfolding records_in text_discrete
items-RoundTrips = (refl, tt)

shipped : Shipped adapter memory memory-IsRedis host id (up ∷ []) store
unfolding records_in text_discrete memory-IsRedis stream_key
shipped = refl

abbrev after : Store
after = drained adapter codec memory memory-IsRedis memory-Answers 1 1 store

-- What a round of the consumer computes with.
consumes : Unit {0}
unfolding text_discrete memory-IsRedis stream_key run_consumer consumer_cycle consume_once
    ingest_batch queued extend_all extended later ◌-ℤ◌ ingest_list
consumes = tt

timely : All (λ e. in_time 0 9 e ≡ true) (memory-IsRedis.stream after (stream_key host log))
unfolding consumes
timely = (refl, tt)

after_test :
    map (λ e. e.fields) (memory-IsRedis.stream after (stream_key host log))
    ≡ ((codes "data", codes "{up}") ∷ []) ∷ []
unfolding consumes
after_test = refl

short : length (memory-IsRedis.stream after (stream_key host log)) < 2
unfolding consumes
short = omega arith

lines-read_example :
    (found : List (Text × Record)) × ((follow_cursors adapter codec memory epoch_ms host log
        (utc 0)
        (utc 9000)
        2
        (pos 1)
        none
        after).0
      ≡ ok found)
    × (of_container lib adapter codec memory memory-IsRedis memory-Answers 1 host id name epoch_ms
          (utc 0)
          (utc 9000)
          0
          9
          refl
          refl
          0
          found
        ≡ held lib adapter codec memory memory-IsRedis memory-Answers 1 host id name store
          ++ map log_record (run_container_listener lib host id name s8.yielded))
    × ((stream : StreamName)
        → raws stream (run_container_listener lib host id name s8.yielded)
          ≡ filterb (has_time lib) (lines stream))
lines-read_example =
    lines-read lib adapter codec memory memory-IsRedis memory-Answers 1 host id name epoch_ms
      (utc 0) (utc 9000) 0 9 refl refl 0 lines 8 1 2 s8 store (λ s low. (_, refl))
      (unfold memory-IsRedis in tt) timely short run ended_test (rw logged_test shipped)
      (unfold memory-IsRedis in items-RoundTrips) (unfold memory-IsRedis in omega arith)
