-- ===== src/Server/Ingest/Interleaved.antt =====
-- The two background tasks of the server at once: ingest/consumer.py and ingest/trimmer.py of
-- packages/log-sump-server/src/log_sump_server, call by call, while Logstash pushes onto the list.
pub mod Ledger
pub mod Calls
pub mod Conserved
pub mod Undisturbed
mod Samples
use log_sump.Base.{ℕ, suc, ◌≡◌, Option, none, some, List, [], ◌∷◌, ◌++◌}
use log_sump.Base.Int.{ℤ, pos}
use log_sump.Base.Text.{Text}
use log_sump.Base.Errors.{Error, ok, err}
use log_sump.Common.Schema.{Kind, RecordAdapter}
use log_sump.Common.RedisKeys.{ingest_list, stream_key}
use log_sump.Common.Redis.{Raw, Redis}
use log_sump.Common.Redis.Laws.{IsRedis}
use log_sump.Server.Ingest.Consumer.{take_rest, ingest_batch}
use log_sump.Server.Ingest.Trimmer.{minid_of, trim_stream}

-- Between which calls the consumer is, and what it has in hand there.
pub data Hand : Type 0 where
  nothing : Hand
  first : Raw → Hand
  batch : List Raw → Hand

abbrev pub in_hand : Hand → List Raw
in_hand nothing = []
in_hand (first x) = x ∷ []
in_hand (batch xs) = xs

module _ (adapter : RecordAdapter) (R : Redis) (laws : IsRedis R) (n : ℕ) where
  -- `pushed`, `failures` and `trims` record what was pushed onto the list since the start, how many
  -- calls of the consumer raised, and which stream was trimmed below which time.
  pub record World : Type 0 where
    pub state : R.State
    pub hand : Hand
    pub pushed : List Raw
    pub failures : ℕ
    pub trims : List (Text × ℤ)

  -- One call. The consumer's calls are those of _consume_once with a batch size of n + 1; when one
  -- raises, _consume_once ends with what it has in hand, and run_consumer begins anew. A trim is that
  -- of any stream at any time for any retention, and may fail.
  pub data Step : World → World → Type 0 where
    pushes :
        (w : World) (items : List Raw) (s : R.State)
        → laws.queue s ingest_list ≡ laws.queue w.state ingest_list ++ items
        → ((k : Text) → laws.stream s k ≡ laws.stream w.state k)
        → Step w (record w { state = s; pushed = w.pushed ++ items })
    times_out :
        (w : World)
        → w.hand ≡ nothing
        → (R.blpop ingest_list w.state).0 ≡ ok none
        → Step w (record w { state = (R.blpop ingest_list w.state).1 })
    pops :
        (w : World) (x : Raw)
        → w.hand ≡ nothing
        → (R.blpop ingest_list w.state).0 ≡ ok (some x)
        → Step w (record w { state = (R.blpop ingest_list w.state).1; hand = first x })
    takes :
        (w : World) (x : Raw) (rest : List Raw)
        → w.hand ≡ first x
        → (take_rest adapter R (pos (suc n)) w.state).0 ≡ ok rest
        → Step w (record w {
          state = (take_rest adapter R (pos (suc n)) w.state).1;
          hand = batch (x ∷ rest);
        })
    sends :
        (w : World) (xs : List Raw)
        → w.hand ≡ batch xs
        → (ingest_batch adapter R xs w.state).0 ≡ ok tt
        → Step w (record w { state = (ingest_batch adapter R xs w.state).1; hand = nothing })
    pop_fails :
        (w : World) (e : Error)
        → w.hand ≡ nothing
        → (R.blpop ingest_list w.state).0 ≡ err e
        → Step w (record w { state = (R.blpop ingest_list w.state).1; failures = suc w.failures })
    take_fails :
        (w : World) (x : Raw) (e : Error)
        → w.hand ≡ first x
        → (take_rest adapter R (pos (suc n)) w.state).0 ≡ err e
        → Step w (record w {
          state = (take_rest adapter R (pos (suc n)) w.state).1;
          hand = nothing;
          failures = suc w.failures;
        })
    send_fails :
        (w : World) (xs : List Raw) (e : Error)
        → w.hand ≡ batch xs
        → (ingest_batch adapter R xs w.state).0 ≡ err e
        → Step w (record w {
          state = (ingest_batch adapter R xs w.state).1;
          hand = nothing;
          failures = suc w.failures;
        })
    trims :
        (w : World) (h : Text) (kind : Kind) (now_ms : ℕ) (days : ℤ)
        → Step w (record w {
          state = (trim_stream R h kind (minid_of now_ms days) w.state).1;
          trims = (stream_key h kind, minid_of now_ms days) ∷ w.trims;
        })

  pub data Steps : World → World → Type 0 where
    here : (w : World) → Steps w w
    next : (u v w : World) → Step u v → Steps v w → Steps u w

  abbrev pub begun : R.State → World
  begun s = record { state = s; hand = nothing; pushed = []; failures = 0; trims = [] }
