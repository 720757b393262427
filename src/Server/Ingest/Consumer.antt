-- ===== src/Server/Ingest/Consumer.antt =====
-- packages/log-sump-server/src/log_sump_server/ingest/consumer.py
pub mod Batches
pub mod Rounds
pub mod Failures
pub mod Draining
mod Samples
use mathlib.Core.Option
use log_sump.Base.{ℕ, zero, suc, Option, none, some, List, [], ◌∷◌, if◌then◌else◌}
use log_sump.Base.Int.{ℤ, pos, ◌-ℤ◌, leb_ℤ}
use log_sump.Base.Text.{Text, codes}
use log_sump.Base.Errors.{Error, is_redis_error, ok}
use log_sump.Base.Exec.{Exec, pure, try_except, ◌>>=◌, ◌>>◌}
use log_sump.Common.Schema.{Record, RecordAdapter, docker_host_of, record_kind}
use log_sump.Common.RedisKeys.{ingest_list, stream_key}
use log_sump.Common.Redis.{Raw, str, int, XAdd, Redis}

abbrev pub batch_size_default : ℤ
batch_size_default = pos 200

abbrev pub key_of : Record → Text
key_of r = stream_key (docker_host_of r) (record_kind r)

module _ (adapter : RecordAdapter) where
  abbrev pub add_of : Record → XAdd
  add_of r = record { key = key_of r; fields = (codes "data", adapter.dump_json r) ∷ [] }

  -- One round of the loop of _ingest_batch; `none` is `continue`.
  abbrev pub read_item : Raw → Option Record
  read_item (int n) = none
  read_item (str s) = adapter.validate_json s

  abbrev queue_item : Option Record → List XAdd → List XAdd
  queue_item none adds = adds
  queue_item (some r) adds = add_of r ∷ adds

  -- The commands that a batch puts into the pipeline.
  unfoldable pub queued : List Raw → List XAdd
  queued [] = []
  queued (item ∷ batch) = queue_item (read_item item) (queued batch)

module _ (adapter : RecordAdapter) (R : Redis) where
  abbrev execute_if_any : List XAdd → Exec R.State Unit
  execute_if_any [] = pure tt
  execute_if_any (a ∷ adds) = R.pipeline_execute (a ∷ adds)

  unfoldable pub ingest_batch : List Raw → Exec R.State Unit
  ingest_batch batch = execute_if_any (queued adapter batch)

  abbrev pub take_rest : ℤ → Exec R.State (List Raw)
  take_rest batch_size =
      if leb_ℤ (pos 2) batch_size
      then (do rest ← R.lpop ingest_list (batch_size -ℤ pos 1); pure (Option.get_or rest []))
      else pure []

  abbrev pub with_first : ℤ → Option Raw → Exec R.State Unit
  with_first batch_size none = pure tt
  with_first batch_size (some first) = do rest ← take_rest batch_size; ingest_batch (first ∷ rest)

  unfoldable pub consume_once : ℤ → Exec R.State Unit
  consume_once batch_size = do popped ← R.blpop ingest_list; with_first batch_size popped

  -- One round of run_consumer: a RedisError is logged, and the loop goes on.
  unfoldable pub consumer_cycle : ℤ → Exec R.State Unit
  consumer_cycle batch_size = try_except (consume_once batch_size) is_redis_error (λ e. pure tt)

  -- The rounds of run_consumer up to a moment; any other exception ends the task.
  unfoldable pub run_consumer : ℕ → ℤ → Exec R.State Unit
  run_consumer zero batch_size = pure tt
  run_consumer (suc rounds) batch_size = do
    consumer_cycle batch_size
    run_consumer rounds batch_size
