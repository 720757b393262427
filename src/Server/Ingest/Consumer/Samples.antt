-- ===== src/Server/Ingest/Consumer/Samples.antt =====
-- The consumer on a list with two records and two malformed items.
use log_sump.Base.{◌≡◌, refl, List, [], ◌∷◌, arith}
use log_sump.Base.Int.{pos}
use log_sump.Base.Text.{Text, codes, bytes, text_discrete}
use log_sump.Base.Errors.{ok}
use log_sump.Common.Redis.{Raw, str, int}
use log_sump.Common.RedisKeys.{ingest_list}
use log_sump.Common.Redis.Memory.{Store, empty_store, memory, memory-IsRedis}
use log_sump.Server.Samples.{adapter, early, sampled}
use log_sump.Server.Ingest.Consumer.{run_consumer}
use log_sump.Server.Ingest.Consumer.Batches.{records_in, written, Appended}
use log_sump.Server.Ingest.Consumer.Draining.{Answers, run_consumer-drains}

abbrev items : List Raw
items =
    str (bytes (codes "up")) ∷ int (pos 3) ∷ str (bytes (codes "zz")) ∷ str (bytes (codes "m")) ∷ []

abbrev log_key : Text
log_key = codes "logsump:stream:h:log"

abbrev store : Store
store = record empty_store { queues = λ k. items }

records_test : records_in adapter items ≡ early ∷ sampled ∷ []
unfolding records_in text_discrete
records_test = refl

memory-Answers : Answers memory
memory-Answers = record {
  blpop = λ s. (_, refl);
  lpop = λ s n. (_, refl);
  pipeline = λ s adds. refl;
}

run_consumer-drains_example :
    ((run_consumer adapter memory 2 (pos 2) store).0 ≡ ok tt)
    × (memory-IsRedis.queue (run_consumer adapter memory 2 (pos 2) store).1 ingest_list ≡ [])
    × ((k : Text)
        → Appended []
            (memory-IsRedis.stream (run_consumer adapter memory 2 (pos 2) store).1 k)
            (written adapter k (records_in adapter items)))
unfolding memory-IsRedis
run_consumer-drains_example =
    run_consumer-drains adapter memory memory-IsRedis memory-Answers 1 2 store (omega arith)
