-- ===== src/Server/Ingest/Interleaved/Calls.antt =====
-- What each call of packages/log-sump-server/src/log_sump_server/ingest/consumer.py, whether it answers
-- or raises, does to the items of the ingest list and to the streams.
use log_sump.Base.{
  ℕ, suc, ◌+◌, ◌*◌, ◌≡◌, sym, ap, ◌∙◌, subst, inl, inr, none, some, List, [], ◌∷◌, ◌++◌, true,
  false, length, length-take, ◌≤◌, append-nil, append_assoc, drop, take-append-drop, List-cases,
  arith,
}
use log_sump.Base.Int.{pos}
use log_sump.Base.Text.{Text}
use log_sump.Base.Errors.{Error, ok, err}
use log_sump.Common.Schema.{RecordAdapter}
use log_sump.Common.RedisKeys.{ingest_list}
use log_sump.Common.Redis.{Raw, Redis}
use log_sump.Common.Redis.Laws.{IsRedis}
use log_sump.Server.Ingest.Consumer.{take_rest, ingest_batch}
use log_sump.Server.Ingest.Consumer.Batches.{ingest_batch-Appended, ingest_batch-queue}
use log_sump.Server.Ingest.Consumer.Failures.{drop-Cut, take_rest-TakeFailed, ingest_batch_failed}
use log_sump.Server.Ingest.Consumer.Rounds.{take_rest-Rest, popped_first}
use log_sump.Base.Remains.{Remains-none}
use log_sump.Server.Ingest.Interleaved.Ledger.{
  list, gone, IsConserved, Grew, same-Kept, goes-IsConserved,
}
use log_sump.Server.Ingest.Interleaved.{Hand, nothing, first, batch, in_hand, World}

batch_more : (f m : ℕ) → suc f * m ≡ m + f * m
batch_more f m = ground arith

module _ (adapter : RecordAdapter) (R : Redis) (laws : IsRedis R) (n : ℕ) where
  module _ (s0 : R.State) (w : World adapter R laws n) (i : IsConserved adapter R laws n s0 w) where
    pub pushes-IsConserved :
        (items : List Raw) (s : R.State)
        → list adapter R laws n s ≡ list adapter R laws n w.state ++ items
        → ((k : Text) → laws.stream s k ≡ laws.stream w.state k)
        → IsConserved adapter R laws n s0 (record w { state = s; pushed = w.pushed ++ items })
    pushes-IsConserved items s q e = record {
      past = i.past;
      small = i.small;
      few = i.few;
      items =
          sym (append_assoc (list adapter R laws n s0) w.pushed items)
          ∙ ap (λ l. l ++ items) i.items
          ∙ append_assoc (gone i.past) (in_hand w.hand ++ list adapter R laws n w.state) items
          ∙ ap (λ l. gone i.past ++ l)
              (append_assoc (in_hand w.hand) (list adapter R laws n w.state) items
                ∙ ap (λ l. in_hand w.hand ++ l) (sym q));
      streams = λ k. same-Kept adapter R laws n s0 w i s w.hand (w.pushed ++ items) k (e k);
    }

    -- What is in hand, and then what is on the list.
    ahead :
        (h : Hand)
        → w.hand ≡ h
        → in_hand w.hand ++ list adapter R laws n w.state
          ≡ in_hand h ++ list adapter R laws n w.state
    ahead h e = ap (λ h. in_hand h ++ list adapter R laws n w.state) e

    timed_out-queue :
        (R.blpop ingest_list w.state).0 ≡ ok none
        → list adapter R laws n (R.blpop ingest_list w.state).1 ≡ list adapter R laws n w.state
    timed_out-queue done = elim (List-cases (list adapter R laws n w.state)) [
      | inl empty ↦ (laws.blpop-empty w.state ingest_list empty done).1 ∙ sym empty
      | inr (x, xs, items) ↦
          absurd (ground (arith, (laws.blpop-head w.state ingest_list x xs items done).0))
    ]

    pub times_out-IsConserved :
        (R.blpop ingest_list w.state).0 ≡ ok none
        → IsConserved adapter R laws n s0 (record w { state = (R.blpop ingest_list w.state).1 })
    times_out-IsConserved done = record {
      past = i.past;
      small = i.small;
      few = i.few;
      items = i.items ∙ ap (λ l. gone i.past ++ (in_hand w.hand ++ l)) (sym (timed_out-queue done));
      streams = λ k.
          same-Kept adapter R laws n s0 w i _ w.hand w.pushed k
            (laws.blpop-stream w.state ingest_list k);
    }

    pub pops-IsConserved :
        (x : Raw)
        → w.hand ≡ nothing
        → (R.blpop ingest_list w.state).0 ≡ ok (some x)
        → IsConserved adapter R laws n s0
            (record w { state = (R.blpop ingest_list w.state).1; hand = first x })
    pops-IsConserved x e done = record {
      past = i.past;
      small = omega arith;
      few = i.few;
      items =
          i.items
          ∙ ap (λ l. gone i.past ++ l)
              (ahead nothing e ∙ popped_first adapter R laws w.state x done);
      streams = λ k.
          same-Kept adapter R laws n s0 w i _ (first x) w.pushed k
            (laws.blpop-stream w.state ingest_list k);
    }

    pub takes-IsConserved :
        (x : Raw) (rest : List Raw)
        → w.hand ≡ first x
        → (take_rest adapter R (pos (suc n)) w.state).0 ≡ ok rest
        → IsConserved adapter R laws n s0 (record w {
          state = (take_rest adapter R (pos (suc n)) w.state).1;
          hand = batch (x ∷ rest);
        })
    takes-IsConserved x rest e done =
        let took = take_rest-Rest adapter R laws n w.state rest done in
        record {
          past = i.past;
          small =
              omega (arith, ap length took.taken, length-take n (list adapter R laws n w.state));
          few = i.few;
          items =
              i.items
              ∙ ap (λ l. gone i.past ++ l)
                  (ahead (first x) e
                    ∙ ap (λ l. x ∷ l)
                        (sym (take-append-drop n (list adapter R laws n w.state))
                          ∙ ap (λ l. l ++ drop n (list adapter R laws n w.state)) (sym took.taken)
                          ∙ ap (λ l. rest ++ l) (sym took.left)));
          streams =
              λ k. same-Kept adapter R laws n s0 w i _ (batch (x ∷ rest)) w.pushed k (took.same k);
        }

    pub sends-IsConserved :
        (xs : List Raw)
        → w.hand ≡ batch xs
        → (ingest_batch adapter R xs w.state).0 ≡ ok tt
        → IsConserved adapter R laws n s0
            (record w { state = (ingest_batch adapter R xs w.state).1; hand = nothing })
    sends-IsConserved xs e done =
        goes-IsConserved adapter R laws n s0 w i (ingest_batch adapter R xs w.state).1 xs true
          w.failures
          (ahead (batch xs) e
            ∙ ap (λ l. xs ++ l) (sym (ingest_batch-queue adapter R laws xs w.state ingest_list)))
          (omega (arith, i.few))
          (λ k.
            let added = ingest_batch-Appended adapter R laws xs w.state done k in
            record { new = added.new; behind = added.behind; holds = added.holds })

    -- adapter R laws n call that failed, behind which no more than a batch is gone.
    fails-IsConserved :
        (s : R.State) (xs : List Raw)
        → in_hand w.hand ++ list adapter R laws n w.state ≡ xs ++ list adapter R laws n s
        → length xs ≤ suc n
        → ((k : Text) → Grew adapter R laws n s0 w i false xs s k)
        → IsConserved adapter R laws n s0
            (record w { state = s; hand = nothing; failures = suc w.failures })
    fails-IsConserved s xs same short grew =
        goes-IsConserved adapter R laws n s0 w i s xs false (suc w.failures) same
          (omega (arith, i.few, batch_more w.failures (suc n))) grew

    -- One that left the streams alone.
    no_growth :
        (s : R.State) (xs : List Raw) (k : Text)
        → laws.stream s k ≡ laws.stream w.state k
        → Grew adapter R laws n s0 w i false xs s k
    no_growth s xs k e = record {
      new = [];
      behind = e ∙ sym (append-nil _);
      holds = Remains-none _ (λ f. tt) _;
    }

    pub pop_fails-IsConserved :
        {e : Error}
        → w.hand ≡ nothing
        → (R.blpop ingest_list w.state).0 ≡ err e
        → IsConserved adapter R laws n s0
            (record w { state = (R.blpop ingest_list w.state).1; failures = suc w.failures })
    pop_fails-IsConserved e failed =
        let cut = drop-Cut 1 _ _ (laws.blpop-failed w.state ingest_list failed) in
        subst
          (λ h. IsConserved adapter R laws n s0 (record w {
            state = (R.blpop ingest_list w.state).1;
            hand = h;
            failures = suc w.failures;
          }))
          (sym e)
          (fails-IsConserved _ cut.off (ahead nothing e ∙ cut.parts) (omega (arith, cut.short))
            (λ k. no_growth _ cut.off k (laws.blpop-stream w.state ingest_list k)))

    pub take_fails-IsConserved :
        (x : Raw) {e : Error}
        → w.hand ≡ first x
        → (take_rest adapter R (pos (suc n)) w.state).0 ≡ err e
        → IsConserved adapter R laws n s0 (record w {
          state = (take_rest adapter R (pos (suc n)) w.state).1;
          hand = nothing;
          failures = suc w.failures;
        })
    take_fails-IsConserved x e failed =
        let took = take_rest-TakeFailed adapter R laws n w.state failed in
        fails-IsConserved _ (x ∷ took.cut.off) (ahead (first x) e ∙ ap (λ l. x ∷ l) took.cut.parts)
          (omega (arith, took.cut.short)) (λ k. no_growth _ (x ∷ took.cut.off) k (took.same k))

    pub send_fails-IsConserved :
        (xs : List Raw) {e : Error}
        → w.hand ≡ batch xs
        → (ingest_batch adapter R xs w.state).0 ≡ err e
        → IsConserved adapter R laws n s0 (record w {
          state = (ingest_batch adapter R xs w.state).1;
          hand = nothing;
          failures = suc w.failures;
        })
    send_fails-IsConserved xs e failed =
        fails-IsConserved _ xs
          (ahead (batch xs) e
            ∙ ap (λ l. xs ++ l) (sym (ingest_batch-queue adapter R laws xs w.state ingest_list)))
          (omega (arith, i.small, ap (λ h. length (in_hand h)) e))
          (λ k.
            let (new, behind, some_of) = ingest_batch_failed adapter R laws xs w.state failed k in
            record { new = new; behind = behind; holds = some_of })
