-- ===== src/Server/Ingest/Interleaved/Undisturbed.antt =====
-- run_consumer of packages/log-sump-server/src/log_sump_server/ingest/consumer.py as a sequence of the
-- calls that interleave with others.
use log_sump.Base.{
  ℕ, zero, suc, ◌≡◌, refl, sym, subst, Bool-cases, ap, ◌∙◌, inl, inr, none, some, List, ◌∷◌,
}
use log_sump.Base.Int.{pos}
use log_sump.Base.Errors.{Result-cases, is_redis_error}
use log_sump.Base.Exec.{bind_ok, bind_err}
use log_sump.Common.Schema.{RecordAdapter}
use log_sump.Common.RedisKeys.{ingest_list}
use log_sump.Common.Redis.{Raw, Redis}
use log_sump.Common.Redis.Laws.{IsRedis}
use log_sump.Server.Ingest.Consumer.{
  take_rest, ingest_batch, with_first, consume_once, consumer_cycle, run_consumer,
}
use log_sump.Server.Ingest.Interleaved.{
  nothing, first, batch, World, Step, times_out, pops, takes, sends, pop_fails, take_fails,
  send_fails, Steps, here, next,
}

module _ (adapter : RecordAdapter) (R : Redis) (laws : IsRedis R) (n : ℕ) where
  -- Steps behind which the consumer has nothing in hand.
  pub record Leads (w : World adapter R laws n) (s : R.State) : Type 0 where
    pub after : World adapter R laws n
    pub steps : Steps adapter R laws n w after
    pub reaches : after.state ≡ s
    pub empty_handed : after.hand ≡ nothing

  via :
      (v w : World adapter R laws n) (s : R.State)
      → Step adapter R laws n v w
      → Leads w s
      → Leads v s
  via v w s step l = record {
    after = l.after;
    steps = next v w l.after step l.steps;
    reaches = l.reaches;
    empty_handed = l.empty_handed;
  }

  both :
      (u v w : World adapter R laws n)
      → Steps adapter R laws n u v
      → Steps adapter R laws n v w
      → Steps adapter R laws n u w
  both _ _ w (here v) rest = rest
  both _ _ w (next u v x step steps) rest = next u v w step (both v x w steps rest)

  at_end : (w : World adapter R laws n) → w.hand ≡ nothing → Leads w w.state
  at_end w e = record { after = w; steps = here w; reaches = refl; empty_handed = e }

  send-Leads :
      (w : World adapter R laws n) (xs : List Raw)
      → w.hand ≡ batch xs
      → Leads w (ingest_batch adapter R xs w.state).1
  send-Leads w xs e = elim (Result-cases (ingest_batch adapter R xs w.state).0) [
    | inl (tt, k) ↦ via w _ _ (sends w xs e k) (at_end _ refl)
    | inr (x, k) ↦ via w _ _ (send_fails w xs x e k) (at_end _ refl)
  ]

  take-Leads :
      (w : World adapter R laws n) (x : Raw)
      → w.hand ≡ first x
      → Leads w (with_first adapter R (pos (suc n)) (some x) w.state).1
  take-Leads w x e = elim (Result-cases (take_rest adapter R (pos (suc n)) w.state).0) [
    | inl (rest, k) ↦
        rw (bind_ok (take_rest adapter R (pos (suc n))) _ w.state k)
          (via w _ _ (takes w x rest e k) (send-Leads _ (x ∷ rest) refl))
    | inr (f, k) ↦
        rw (bind_err (take_rest adapter R (pos (suc n))) _ w.state k)
          (via w _ _ (take_fails w x f e k) (at_end _ refl))
  ]

  -- Its calls are those of _consume_once, one after the other.
  consume_once-Leads :
      (w : World adapter R laws n)
      → w.hand ≡ nothing
      → Leads w (consume_once adapter R (pos (suc n)) w.state).1
  unfolding consume_once
  consume_once-Leads w e = elim (Result-cases (R.blpop ingest_list w.state).0) [
    | inl (none, k) ↦
        rw (bind_ok (R.blpop ingest_list) (with_first adapter R (pos (suc n))) w.state k)
          (via w _ _ (times_out w e k) (at_end _ e))
    | inl (some x, k) ↦
        rw (bind_ok (R.blpop ingest_list) (with_first adapter R (pos (suc n))) w.state k)
          (via w _ _ (pops w x e k) (take-Leads _ x refl))
    | inr (f, k) ↦
        rw (bind_err (R.blpop ingest_list) (with_first adapter R (pos (suc n))) w.state k)
          (via w _ _ (pop_fails w f e k) (at_end _ e))
  ]

  -- A round that raises leaves the state that _consume_once left.
  consumer_cycle_state :
      (s : R.State)
      → (consumer_cycle adapter R (pos (suc n)) s).1 ≡ (consume_once adapter R (pos (suc n)) s).1
  unfolding consumer_cycle
  consumer_cycle_state s = elim (Result-cases (consume_once adapter R (pos (suc n)) s).0) [
    | inl (x, k) ↦ rw k refl
    | inr (e, k) ↦
        rw k (elim (Bool-cases (is_redis_error e)) [ inl c ↦ rw c refl | inr c ↦ rw c refl ])
  ]

  cycle-Leads :
      (w : World adapter R laws n)
      → w.hand ≡ nothing
      → Leads w (consumer_cycle adapter R (pos (suc n)) w.state).1
  cycle-Leads w e = subst (Leads w) (sym (consumer_cycle_state w.state)) (consume_once-Leads w e)

  -- However many rounds run_consumer makes, and whatever raises in them, what it does is a sequence of
  -- steps that interleave with others, behind which it has nothing in hand.
  pub run_consumer-Leads :
      (rounds : ℕ) (w : World adapter R laws n)
      → w.hand ≡ nothing
      → Leads w (run_consumer adapter R rounds (pos (suc n)) w.state).1
  unfolding run_consumer
  run_consumer-Leads zero w e = at_end w e
  run_consumer-Leads (suc rounds) w e =
      let cycle = consumer_cycle adapter R (pos (suc n)) in
      let l = cycle-Leads w e in
      elim (Result-cases (cycle w.state).0) [
        | inl (x, k) ↦
            let further = run_consumer-Leads rounds l.after l.empty_handed in
            rw (bind_ok cycle (λ _. run_consumer adapter R rounds (pos (suc n))) w.state k)
              (record {
                after = further.after;
                steps = both w l.after further.after l.steps further.steps;
                reaches =
                    further.reaches
                    ∙ ap (λ s. (run_consumer adapter R rounds (pos (suc n)) s).1) l.reaches;
                empty_handed = further.empty_handed;
              })
        | inr (x, k) ↦
            rw (bind_err cycle (λ _. run_consumer adapter R rounds (pos (suc n))) w.state k) l
      ]
