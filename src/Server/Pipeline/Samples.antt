-- ===== src/Server/Pipeline/Samples.antt =====
-- A list with two records and two malformed items.
use log_sump.Base.{◌≡◌, refl, List, [], ◌∷◌, ◌++◌, filterb, All, arith}
use log_sump.Base.Int.{pos}
use log_sump.Base.Text.{codes, bytes, text_discrete}
use log_sump.Common.Schema.{RoundTrips, log}
use log_sump.Common.Redis.{Raw, str, int}
use log_sump.Common.RedisKeys.{ingest_list, stream_key}
use log_sump.Common.Redis.Memory.{Store, empty_store, memory, memory-IsRedis}
use log_sump.Server.Samples.{adapter, codec}
use log_sump.Server.Ingest.Consumer.{run_consumer}
use log_sump.Server.Ingest.Consumer.Batches.{records_in}
use log_sump.Server.Ingest.Consumer.Draining.{Answers}
use log_sump.Server.Pipeline.{belongs, stored, run_consumer-stored}

abbrev items : List Raw
items =
    str (bytes (codes "up")) ∷ int (pos 3) ∷ str (bytes (codes "zz")) ∷ str (bytes (codes "m")) ∷ []

abbrev store : Store
store = record empty_store { queues = λ k. items }

memory-Answers : Answers memory
memory-Answers = record {
  blpop = λ s. (_, refl);
  lpop = λ s n. (_, refl);
  pipeline = λ s adds. refl;
}

items-RoundTrips : All (RoundTrips adapter) (records_in adapter items)
unfolding records_in text_discrete
items-RoundTrips = (refl, (refl, tt))

run_consumer-stored_example :
    stored adapter codec (
      memory-IsRedis.stream
        (run_consumer adapter memory 2 (pos 2) store).1
        (stream_key (codes "h") log))
    ≡ stored adapter codec (memory-IsRedis.stream store (stream_key (codes "h") log))
      ++ filterb
          (belongs (codes "h") log)
          (records_in adapter (memory-IsRedis.queue store ingest_list))
run_consumer-stored_example =
    run_consumer-stored adapter codec memory memory-IsRedis memory-Answers 1 2 store (codes "h") log
      (unfold memory-IsRedis in omega arith) (unfold memory-IsRedis in items-RoundTrips)
