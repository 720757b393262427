-- ===== src/Server/Ingest/Interleaved/Samples.antt =====
-- Two records that are lost, as sending them fails, a trim, and then a record and a malformed item
-- that are sent.
use log_sump.Base.{
  refl, sym, true, false, Bool, Bool-cases, inl, inr, List, [], ◌∷◌, append-nil, if◌then◌else◌,
  arith,
}
use log_sump.Base.Int.{pos, ◌-ℤ◌}
use log_sump.Base.Text.{codes, bytes, text_discrete, ◌==◌}
use log_sump.Base.Errors.{err, redis_error}
use log_sump.Base.Remains.{Remains-none}
use log_sump.Common.Schema.{log}
use log_sump.Common.RedisKeys.{ingest_list, stream_key}
use log_sump.Common.Redis.{Raw, str, XAdd, Redis}
use log_sump.Common.Redis.Laws.{IsRedis}
use log_sump.Common.Redis.Memory.{Store, empty_store, memory, memory-IsRedis}
use log_sump.Server.Samples.{adapter}
use log_sump.Server.Ingest.Consumer.{take_rest, ingest_batch, queued, run_consumer}
use log_sump.Server.Ingest.Interleaved.Undisturbed.{Leads, run_consumer-Leads}
use log_sump.Server.Ingest.Trimmer.{minid_of, trim_stream}
use log_sump.Server.Ingest.Interleaved.{
  nothing, first, batch, World, pops, takes, sends, send_fails, trims, Steps, here, next, begun,
}
use log_sump.Server.Ingest.Interleaved.Ledger.{IsConserved}
use log_sump.Server.Ingest.Interleaved.Conserved.{Steps-IsConserved}

abbrev is_two : List XAdd → Bool
is_two (a ∷ b ∷ []) = true
is_two _ = false

-- It executes nothing of a pipeline of two commands.
abbrev shaky : Redis
shaky = record memory {
  pipeline_execute =
      λ adds s. if is_two adds then (err redis_error, s) else memory.pipeline_execute adds s;
}

shaky-IsRedis : IsRedis shaky
unfolding memory-IsRedis
shaky-IsRedis = record {
  stream = memory-IsRedis.stream;
  queue = memory-IsRedis.queue;
  ascending = memory-IsRedis.ascending;
  seq_bound = memory-IsRedis.seq_bound;
  xrange-reply = memory-IsRedis.xrange-reply;
  xrange-stream = memory-IsRedis.xrange-stream;
  xtrim-raises = memory-IsRedis.xtrim-raises;
  xtrim-done = memory-IsRedis.xtrim-done;
  xtrim-failed = memory-IsRedis.xtrim-failed;
  xtrim-else = memory-IsRedis.xtrim-else;
  xtrim-queue = memory-IsRedis.xtrim-queue;
  pipeline-added = λ s adds h k. elim (Bool-cases (is_two adds)) [
    | inl e ↦ absurd (ground (arith, e, h))
    | inr e ↦ rw e (memory-IsRedis.pipeline-added s adds refl k)
  ];
  pipeline-failed = λ s adds h k. elim (Bool-cases (is_two adds)) [
    | inl e ↦ rw e ([], sym (append-nil _), Remains-none _ (λ f. tt) _)
    | inr e ↦ absurd (ground (arith, e, h))
  ];
  pipeline-queue = λ s adds k. ground arith;
  blpop-empty = memory-IsRedis.blpop-empty;
  blpop-head = memory-IsRedis.blpop-head;
  blpop-failed = memory-IsRedis.blpop-failed;
  blpop-stream = memory-IsRedis.blpop-stream;
  lpop-empty = memory-IsRedis.lpop-empty;
  lpop-head = memory-IsRedis.lpop-head;
  lpop-failed = memory-IsRedis.lpop-failed;
  lpop-stream = memory-IsRedis.lpop-stream;
}

abbrev up : Raw
up = str (bytes (codes "up"))

abbrev m : Raw
m = str (bytes (codes "m"))

abbrev zz : Raw
zz = str (bytes (codes "zz"))

abbrev store : Store
store = record empty_store { queues = λ k. if k == ingest_list then up ∷ m ∷ up ∷ zz ∷ [] else [] }

abbrev Worlds : Type 0
Worlds = World adapter shaky shaky-IsRedis 1

abbrev w0 : Worlds
w0 = begun adapter shaky shaky-IsRedis 1 store

abbrev w1 : Worlds
w1 = record w0 { state = (shaky.blpop ingest_list store).1; hand = first up }

abbrev w2 : Worlds
w2 = record w1 { state = (take_rest adapter shaky (pos 2) w1.state).1; hand = batch (up ∷ m ∷ []) }

abbrev w3 : Worlds
w3 = record w2 {
  state = (ingest_batch adapter shaky (up ∷ m ∷ []) w2.state).1;
  hand = nothing;
  failures = 1;
}

abbrev w4 : Worlds
w4 = record w3 {
  state = (trim_stream shaky (codes "h") log (minid_of 5 (pos 7)) w3.state).1;
  trims = (stream_key (codes "h") log, minid_of 5 (pos 7)) ∷ [];
}

abbrev w5 : Worlds
w5 = record w4 { state = (shaky.blpop ingest_list w4.state).1; hand = first up }

abbrev w6 : Worlds
w6 = record w5 { state = (take_rest adapter shaky (pos 2) w5.state).1; hand = batch (up ∷ zz ∷ []) }

abbrev w7 : Worlds
w7 = record w6 { state = (ingest_batch adapter shaky (up ∷ zz ∷ []) w6.state).1; hand = nothing }

interleaved : Steps adapter shaky shaky-IsRedis 1 w0 w7
unfolding text_discrete ingest_list ◌-ℤ◌ ingest_batch queued trim_stream
interleaved = next w0 w1 w7 (pops w0 up refl refl) (
    next w1 w2 w7 (takes w1 up (m ∷ []) refl refl) (
      next w2 w3 w7 (send_fails w2 (up ∷ m ∷ []) redis_error refl refl) (
        next w3 w4 w7 (trims w3 (codes "h") log 5 (pos 7)) (
          next w4 w5 w7 (pops w4 up refl refl) (
            next w5 w6 w7 (takes w5 up (zz ∷ []) refl refl)
              (next w6 w7 w7 (sends w6 (up ∷ zz ∷ []) refl refl) (here w7)))))))

Steps-IsConserved_example : IsConserved adapter shaky shaky-IsRedis 1 store w7
Steps-IsConserved_example = Steps-IsConserved adapter shaky shaky-IsRedis 1 store w7 interleaved

run_consumer-Leads_example :
    Leads adapter shaky shaky-IsRedis 1 w0 (run_consumer adapter shaky 3 (pos 2) store).1
run_consumer-Leads_example = run_consumer-Leads adapter shaky shaky-IsRedis 1 3 w0 refl
