-- ===== src/Server/Ingest/Interleaved/Conserved.antt =====
-- What becomes of the items of the ingest list and of the entries of the streams, while the consumer
-- and the trimmer of packages/log-sump-server/src/log_sump_server/ingest interleave.
use log_sump.Base.{ℕ}
use log_sump.Common.Schema.{RecordAdapter}
use log_sump.Common.Redis.{Redis}
use log_sump.Common.Redis.Laws.{IsRedis}
use log_sump.Server.Ingest.Trimmer.{minid_of}
use log_sump.Server.Ingest.Interleaved.Ledger.{IsConserved, begun-IsConserved, trims-IsConserved}
use log_sump.Server.Ingest.Interleaved.Calls.{
  pushes-IsConserved, times_out-IsConserved, pops-IsConserved, takes-IsConserved, sends-IsConserved,
  pop_fails-IsConserved, take_fails-IsConserved, send_fails-IsConserved,
}
use log_sump.Server.Ingest.Interleaved.{
  World, Step, pushes, times_out, pops, takes, sends, trims, pop_fails, take_fails, send_fails,
  Steps, here, next, begun,
}

module _ (adapter : RecordAdapter) (R : Redis) (laws : IsRedis R) (n : ℕ) where
  Step-IsConserved :
      (s0 : R.State) (v w : World adapter R laws n)
      → Step adapter R laws n v w
      → IsConserved adapter R laws n s0 v
      → IsConserved adapter R laws n s0 w
  Step-IsConserved s0 _ _ (pushes w items s q e) i =
      pushes-IsConserved adapter R laws n s0 w i items s q e
  Step-IsConserved s0 _ _ (times_out w e done) i =
      times_out-IsConserved adapter R laws n s0 w i done
  Step-IsConserved s0 _ _ (pops w x e done) i = pops-IsConserved adapter R laws n s0 w i x e done
  Step-IsConserved s0 _ _ (takes w x rest e done) i =
      takes-IsConserved adapter R laws n s0 w i x rest e done
  Step-IsConserved s0 _ _ (sends w xs e done) i =
      sends-IsConserved adapter R laws n s0 w i xs e done
  Step-IsConserved s0 _ _ (pop_fails w x e failed) i =
      pop_fails-IsConserved adapter R laws n s0 w i e failed
  Step-IsConserved s0 _ _ (take_fails w x f e failed) i =
      take_fails-IsConserved adapter R laws n s0 w i x e failed
  Step-IsConserved s0 _ _ (send_fails w xs f e failed) i =
      send_fails-IsConserved adapter R laws n s0 w i xs e failed
  Step-IsConserved s0 _ _ (trims w h kind now_ms days) i =
      trims-IsConserved adapter R laws n s0 w i h kind (minid_of now_ms days)

  Steps-IsConserved_from :
      (s0 : R.State) (v w : World adapter R laws n)
      → Steps adapter R laws n v w
      → IsConserved adapter R laws n s0 v
      → IsConserved adapter R laws n s0 w
  Steps-IsConserved_from s0 _ _ (here w) i = i
  Steps-IsConserved_from s0 _ _ (next u v w st rest) i =
      Steps-IsConserved_from s0 v w rest (Step-IsConserved s0 u v st i)

  -- However the calls of the consumer, trims of any streams and pushes onto the ingest list interleave,
  -- and whichever of the calls fail: the items that the list had and got are, in this order, those that
  -- the consumer took and has no longer in hand, those that it has in hand, which are at most a batch,
  -- and those on the list; and of the first all were sent, but at most a batch for each call of the
  -- consumer that failed. Each stream holds, of what it held at the start and, behind it, an entry for
  -- each valid record sent of its daemon and kind, in order, and for some of those whose sending
  -- failed, all but entries that are older than the retention at some trim of this stream.
  pub Steps-IsConserved :
      (s0 : R.State) (w : World adapter R laws n)
      → Steps adapter R laws n (begun adapter R laws n s0) w
      → IsConserved adapter R laws n s0 w
  Steps-IsConserved s0 w steps =
      Steps-IsConserved_from s0 (begun adapter R laws n s0) w steps
        (begun-IsConserved adapter R laws n s0)
