-- ===== src/Server/Ingest/Consumer/Draining.antt =====
-- The rounds of run_consumer in packages/log-sump-server/src/log_sump_server/ingest/consumer.py,
-- while Redis answers.
use mathlib.Core.Path.{subst}
use mathlib.Core.Option
use log_sump.Base.{
  ℕ, zero, suc, ◌+◌, ◌*◌, ◌≤◌, ◌≡◌, refl, sym, ap, ◌∙◌, Option, none, some, List, [], ◌∷◌, ◌++◌,
  append-nil, append_assoc, map, map-append, filterb-append, take, drop, take-add, drop-add,
  take_all, drop_all, length, Bool-cases, inl, inr, arith,
}
use log_sump.Base.Int.{ℤ, pos, ◌-ℤ◌, leb_ℤ}
use log_sump.Base.Text.{Text, Bytes, ◌==◌}
use log_sump.Base.Dict.{Dict}
use log_sump.Base.Errors.{Result, ok}
use log_sump.Base.Exec.{bind_ok}
use log_sump.Common.Schema.{RecordAdapter}
use log_sump.Common.RedisKeys.{ingest_list}
use log_sump.Common.Redis.{Raw, XAdd, Redis}
use log_sump.Common.Redis.Laws.{Entry, IsRedis}
use log_sump.Server.Ingest.Consumer.{
  key_of, ingest_batch, consume_once, consumer_cycle, run_consumer, with_first, take_rest,
  execute_if_any, queued,
}
use log_sump.Server.Ingest.Consumer.Batches.{records_in, written, Appended}
use log_sump.Server.Ingest.Consumer.Rounds.{Consumed, consume_once-Consumed}

-- The calls of the consumer answer.
pub record Answers (R : Redis) : Type 0 where
  pub blpop : (s : R.State) → (r : Option Raw) × ((R.blpop ingest_list s).0 ≡ ok r)
  pub lpop : (s : R.State) (n : ℤ) → (r : Option (List Raw)) × ((R.lpop ingest_list n s).0 ≡ ok r)
  pub pipeline : (s : R.State) (adds : List XAdd) → (R.pipeline_execute adds s).0 ≡ ok tt

module _ (adapter : RecordAdapter) where
  records_in-append :
      (xs ys : List Raw)
      → records_in adapter (xs ++ ys) ≡ records_in adapter xs ++ records_in adapter ys
  unfolding records_in
  records_in-append [] ys = refl
  records_in-append (x ∷ xs) ys = ground (arith, records_in-append xs ys)

  pub written-append :
      (k : Text) (xs ys : List Raw)
      → written adapter k (records_in adapter (xs ++ ys))
        ≡ written adapter k (records_in adapter xs) ++ written adapter k (records_in adapter ys)
  written-append k xs ys =
      ap (written adapter k) (records_in-append xs ys)
      ∙ ap (map _)
          (filterb-append (λ r. k == key_of r) (records_in adapter xs) (records_in adapter ys))
      ∙ map-append _ _ _

pub Appended-trans :
    {a b c : List Entry} {f g : List (Dict Bytes)}
    → Appended a b f
    → Appended b c g
    → Appended a c (f ++ g)
Appended-trans {a} {f = f} p q = record {
  new = p.new ++ q.new;
  behind = q.behind ∙ ap (λ es. es ++ q.new) p.behind ∙ append_assoc a p.new q.new;
  holds =
      map-append _ p.new q.new
      ∙ ap (λ l. l ++ map (λ e. e.fields) q.new) p.holds
      ∙ ap (λ l. f ++ l) q.holds;
}

module _ (adapter : RecordAdapter) (R : Redis) (laws : IsRedis R) where
  Consumed-trans :
      (m n : ℕ) {s t u : R.State}
      → Consumed adapter R laws m s t
      → Consumed adapter R laws n t u
      → Consumed adapter R laws (m + n) s u
  Consumed-trans m n {s} {t} {u} p q = record {
    shorter = q.shorter ∙ ap (drop n) p.shorter ∙ sym (drop-add m n _);
    streams = λ k.
        subst (Appended (laws.stream s k) (laws.stream u k))
          (sym (
            ap (λ l. written adapter k (records_in adapter l))
              (take-add m n (laws.queue s ingest_list))
            ∙ written-append adapter k (take m (laws.queue s ingest_list)) _
            ∙ ap
                (λ l.
                  written adapter k (records_in adapter (take m (laws.queue s ingest_list)))
                  ++ written adapter k (records_in adapter (take n l)))
                (sym p.shorter)))
          (Appended-trans (p.streams k) (q.streams k));
  }

module _ (adapter : RecordAdapter) (R : Redis) (answers : Answers R) where
  execute_ok : (adds : List XAdd) (s : R.State) → (execute_if_any adapter R adds s).0 ≡ ok tt
  execute_ok [] s = refl
  execute_ok (a ∷ adds) s = answers.pipeline s (a ∷ adds)

  ingest_batch_ok : (batch : List Raw) (s : R.State) → (ingest_batch adapter R batch s).0 ≡ ok tt
  unfolding ingest_batch
  ingest_batch_ok batch s = execute_ok (queued adapter batch) s

  take_rest_ok :
      (batch_size : ℤ) (s : R.State)
      → (rest : List Raw) × ((take_rest adapter R batch_size s).0 ≡ ok rest)
  take_rest_ok batch_size s = elim (Bool-cases (leb_ℤ (pos 2) batch_size)) [
    | inl more ↦
        let (r, got) = answers.lpop s (batch_size -ℤ pos 1) in
        rw more (Option.get_or r [], ap (λ x. x.0) (bind_ok (R.lpop ingest_list _) _ s got))
    | inr single ↦ rw single ([], refl)
  ]

  with_first_ok :
      (batch_size : ℤ) (popped : Option Raw) (s : R.State)
      → (with_first adapter R batch_size popped s).0 ≡ ok tt
  with_first_ok batch_size none s = refl
  with_first_ok batch_size (some x) s =
      let (rest, got) = take_rest_ok batch_size s in
      ap (λ r. r.0) (bind_ok (take_rest adapter R batch_size) _ s got)
      ∙ ingest_batch_ok (x ∷ rest) _

  consume_once_ok : (batch_size : ℤ) (s : R.State) → (consume_once adapter R batch_size s).0 ≡ ok tt
  unfolding consume_once
  consume_once_ok batch_size s =
      let (popped, got) = answers.blpop s in
      ap (λ r. r.0) (bind_ok (R.blpop ingest_list) _ s got) ∙ with_first_ok batch_size popped _

  consumer_cycle_ok :
      (batch_size : ℤ) (s : R.State)
      → consumer_cycle adapter R batch_size s ≡ (ok tt, (consume_once adapter R batch_size s).1)
  unfolding consumer_cycle
  consumer_cycle_ok batch_size s = rw (consume_once_ok batch_size s)

  run_consumer-suc :
      (rounds : ℕ) (batch_size : ℤ) (s : R.State)
      → run_consumer adapter R (suc rounds) batch_size s
        ≡ run_consumer adapter R rounds batch_size (consume_once adapter R batch_size s).1
  unfolding run_consumer
  run_consumer-suc rounds batch_size s = rw (consumer_cycle_ok batch_size s)

  run_consumer_ok :
      (rounds : ℕ) (batch_size : ℤ) (s : R.State)
      → (run_consumer adapter R rounds batch_size s).0 ≡ ok tt
  unfolding run_consumer
  run_consumer_ok zero batch_size s = refl
  run_consumer_ok (suc rounds) batch_size s =
      ap (λ r. r.0) (run_consumer-suc rounds batch_size s) ∙ run_consumer_ok rounds batch_size _

module _ (adapter : RecordAdapter) (R : Redis) (laws : IsRedis R) (answers : Answers R)
    (n : ℕ) where
  run_consumer-Consumed :
      (rounds : ℕ) (s : R.State)
      → Consumed adapter R laws (rounds * suc n) s (run_consumer adapter R rounds (pos (suc n)) s).1
  unfolding run_consumer
  run_consumer-Consumed zero s =
      let none_taken : 0 * suc n ≡ 0 = omega arith in
      rw none_taken (record {
        shorter = refl;
        streams = λ k. record {
          new = [];
          behind = sym (append-nil _);
          holds = unfold records_in in refl;
        };
      })
  run_consumer-Consumed (suc rounds) s =
      let first =
        consume_once-Consumed adapter R laws n s
          (consume_once_ok adapter R answers (pos (suc n)) s) in
      let next = (consume_once adapter R (pos (suc n)) s).1 in
      let sum : suc rounds * suc n ≡ suc n + rounds * suc n = omega arith in
      rw sum (
        subst
          (λ (r : Result Unit × R.State). Consumed adapter R laws (suc n + rounds * suc n) s r.1)
          (sym (run_consumer-suc adapter R answers rounds (pos (suc n)) s))
          (Consumed-trans adapter R laws (suc n) (rounds * suc n) first
            (run_consumer-Consumed rounds next)))

  -- While Redis answers, the rounds of the consumer return, and once they could have taken as many
  -- items as the list held, with a batch size of n + 1, the list is empty and every stream has got,
  -- behind what it held, an entry for each valid record of its daemon and kind that was in the list,
  -- in the order of the list.
  pub run_consumer-drains :
      (rounds : ℕ) (s : R.State)
      → length (laws.queue s ingest_list) ≤ rounds * suc n
      → ((run_consumer adapter R rounds (pos (suc n)) s).0 ≡ ok tt)
        × (laws.queue (run_consumer adapter R rounds (pos (suc n)) s).1 ingest_list ≡ [])
        × ((k : Text)
            → Appended
                (laws.stream s k)
                (laws.stream (run_consumer adapter R rounds (pos (suc n)) s).1 k)
                (written adapter k (records_in adapter (laws.queue s ingest_list))))
  run_consumer-drains rounds s enough =
      let all = run_consumer-Consumed rounds s in
      let items = laws.queue s ingest_list in
      (
        run_consumer_ok adapter R answers rounds (pos (suc n)) s,
        all.shorter ∙ drop_all (rounds * suc n) items enough,
        λ k.
            subst
              (λ l.
                Appended (laws.stream s k)
                  (laws.stream (run_consumer adapter R rounds (pos (suc n)) s).1 k)
                  (written adapter k (records_in adapter l)))
              (take_all (rounds * suc n) items enough) (all.streams k),
      )
