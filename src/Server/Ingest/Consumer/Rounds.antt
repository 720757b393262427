-- ===== src/Server/Ingest/Consumer/Rounds.antt =====
-- What a round of packages/log-sump-server/src/log_sump_server/ingest/consumer.py takes from the
-- list, and where it goes.
use mathlib.Core.Option
use mathlib.Core.Option.{some-injective}
use log_sump.Base.{
  ℕ, zero, suc, ◌≡◌, refl, sym, ap, ◌∙◌, true, Option, none, some, List, [], ◌∷◌, ◌++◌, append-nil,
  take, drop, List-cases, inl, inr, arith,
}
use log_sump.Base.Int.{pos, ◌-ℤ◌, leb_ℤ}
use log_sump.Base.Text.{Text}
use log_sump.Base.Errors.{ok}
use log_sump.Base.Exec.{Exec, pure, ◌>>=◌, bind-eq-ok}
use log_sump.Common.Schema.{RecordAdapter}
use log_sump.Common.RedisKeys.{ingest_list}
use log_sump.Common.Redis.{Raw, Redis}
use log_sump.Common.Redis.Laws.{IsRedis}
use log_sump.Server.Ingest.Consumer.{take_rest, with_first, ingest_batch, consume_once}
use log_sump.Server.Ingest.Consumer.Batches.{
  records_in, written, Appended, ingest_batch-Appended, ingest_batch-queue,
}

module _ (adapter : RecordAdapter) (R : Redis) (laws : IsRedis R) where
  -- From s to t, the first n items of the list have gone into the streams.
  pub record Consumed (n : ℕ) (s t : R.State) : Type 0 where
    pub shorter : laws.queue t ingest_list ≡ drop n (laws.queue s ingest_list)
    pub streams :
        (k : Text)
        → Appended
            (laws.stream s k)
            (laws.stream t k)
            (written adapter k (records_in adapter (take n (laws.queue s ingest_list))))

  one_less : (m : ℕ) → pos (suc (suc m)) -ℤ pos 1 ≡ pos (suc m)
  unfolding ◌-ℤ◌
  one_less m = ground arith

  -- What LPOP gives for the rest of a batch, from the items that BLPOP left.
  pub record Rest (n : ℕ) (t : R.State) (rest : List Raw) (u : R.State) : Type 0 where
    pub taken : rest ≡ take n (laws.queue t ingest_list)
    pub left : laws.queue u ingest_list ≡ drop n (laws.queue t ingest_list)
    pub same : (k : Text) → laws.stream u k ≡ laws.stream t k

  lpop-Rest :
      (m : ℕ) (t : R.State) (reply : Option (List Raw))
      → (R.lpop ingest_list (pos (suc m)) t).0 ≡ ok reply
      → Rest (suc m) t (Option.get_or reply []) (R.lpop ingest_list (pos (suc m)) t).1
  lpop-Rest m t reply done = elim (List-cases (laws.queue t ingest_list)) [
    | inl empty ↦
        let (r, q) = laws.lpop-empty t ingest_list m empty done in
        record { taken = rw (r, empty); left = rw (q, empty); same = laws.lpop-stream t _ _ }
    | inr (x, xs, items) ↦
        let (r, q) = laws.lpop-head t ingest_list m x xs items done in
        record { taken = rw (r, items); left = rw (q, items); same = laws.lpop-stream t _ _ }
  ]

  -- With more than one item wanted the rest of the batch is asked for.
  unfoldable pub lpop_rest : ℕ → Exec R.State (List Raw)
  lpop_rest m = do reply ← R.lpop ingest_list (pos (suc m)); pure (Option.get_or reply [])

  pub take_rest-suc : (m : ℕ) → take_rest adapter R (pos (suc (suc m))) ≡ lpop_rest m
  unfolding lpop_rest
  take_rest-suc m =
      let two : leb_ℤ (pos 2) (pos (suc (suc m))) ≡ true = ground arith in rw (two, one_less m)

  pub take_rest-Rest :
      (n : ℕ) (t : R.State) (rest : List Raw)
      → (take_rest adapter R (pos (suc n)) t).0 ≡ ok rest
      → Rest n t rest (take_rest adapter R (pos (suc n)) t).1
  unfolding lpop_rest
  take_rest-Rest zero t rest done = record { taken = cc; left = refl; same = λ k. refl }
  take_rest-Rest (suc m) t rest done =
      let done' = ap (λ (e : Exec R.State (List Raw)). (e t).0) (sym (take_rest-suc m)) ∙ done in
      let (reply, p, q, e) =
        bind-eq-ok (R.lpop ingest_list (pos (suc m))) (λ reply. pure (Option.get_or reply [])) t
          done' in
      let popped = lpop-Rest m t reply p in
      let same_rest : rest ≡ Option.get_or reply [] = cc in
      let same_state : (lpop_rest m t).1 ≡ (R.lpop ingest_list (pos (suc m)) t).1 =
        ap (λ x. x.1) e in
      rw (take_rest-suc m) (record {
        taken = same_rest ∙ popped.taken;
        left = rw same_state popped.left;
        same = λ k. rw same_state (popped.same k);
      })

  -- The queue is empty where BLPOP timed out.
  timed_out :
      (n : ℕ) (s : R.State)
      → (R.blpop ingest_list s).0 ≡ ok none
      → Consumed (suc n) s (R.blpop ingest_list s).1
  timed_out n s done = elim (List-cases (laws.queue s ingest_list)) [
    | inl empty ↦
        let (r, q) = laws.blpop-empty s ingest_list empty done in
        record {
          shorter = rw (q, empty);
          streams = λ k. rw empty (record {
            new = [];
            behind = laws.blpop-stream s _ k ∙ sym (append-nil _);
            holds = unfold records_in in refl;
          });
        }
    | inr (x, xs, items) ↦
        let (r, q) = laws.blpop-head s ingest_list x xs items done in absurd (ground arith)
  ]

  -- The queue begins with what BLPOP popped.
  pub popped_first :
      (s : R.State) (x : Raw)
      → (R.blpop ingest_list s).0 ≡ ok (some x)
      → laws.queue s ingest_list ≡ x ∷ laws.queue (R.blpop ingest_list s).1 ingest_list
  popped_first s x done = elim (List-cases (laws.queue s ingest_list)) [
    | inl empty ↦ let (r, q) = laws.blpop-empty s ingest_list empty done in absurd (ground arith)
    | inr (y, ys, items) ↦
        let (r, q) = laws.blpop-head s ingest_list y ys items done in
        let same : x ≡ y = some-injective x y r in rw (items, q, same)
  ]

  batch_taken :
      (n : ℕ) (s : R.State) (x : Raw)
      → (R.blpop ingest_list s).0 ≡ ok (some x)
      → (rest : List Raw) (u : R.State) → Rest n (R.blpop ingest_list s).1 rest u
      → (ingest_batch adapter R (x ∷ rest) u).0 ≡ ok tt
      → Consumed (suc n) s (ingest_batch adapter R (x ∷ rest) u).1
  batch_taken n s x done rest u took ingested =
      let items = popped_first s x done in
      record {
        shorter =
            ingest_batch-queue adapter R laws (x ∷ rest) u ingest_list
            ∙ took.left
            ∙ sym (ap (drop (suc n)) items);
        streams = λ k.
            let added = ingest_batch-Appended adapter R laws (x ∷ rest) u ingested k in
            record {
              new = added.new;
              behind =
                  added.behind ∙ ap (λ es. es ++ added.new) (took.same k ∙ laws.blpop-stream s _ k);
              holds =
                  added.holds
                  ∙ ap (λ batch. written adapter k (records_in adapter batch))
                      (ap (λ l. x ∷ l) took.taken ∙ sym (ap (take (suc n)) items));
            };
      }

  with_first-Consumed :
      (n : ℕ) (s : R.State) (popped : Option Raw)
      → (R.blpop ingest_list s).0 ≡ ok popped
      → (with_first adapter R (pos (suc n)) popped (R.blpop ingest_list s).1).0 ≡ ok tt
      → Consumed (suc n) s (with_first adapter R (pos (suc n)) popped (R.blpop ingest_list s).1).1
  with_first-Consumed n s none done rest_done = timed_out n s done
  with_first-Consumed n s (some x) done rest_done =
      let (rest, p, q, e) =
        bind-eq-ok (take_rest adapter R (pos (suc n))) (λ rest. ingest_batch adapter R (x ∷ rest)) _
          rest_done in
      rw e (batch_taken n s x done rest _ (take_rest-Rest n _ rest p) q)

  -- A round that returned, with a batch size of n + 1, took the first n + 1 items off the list, or
  -- all if there were fewer, and added their valid records to the streams.
  pub consume_once-Consumed :
      (n : ℕ) (s : R.State)
      → (consume_once adapter R (pos (suc n)) s).0 ≡ ok tt
      → Consumed (suc n) s (consume_once adapter R (pos (suc n)) s).1
  unfolding consume_once
  consume_once-Consumed n s done =
      let (popped, p, q, e) =
        bind-eq-ok (R.blpop ingest_list) (with_first adapter R (pos (suc n))) s done in
      rw e (with_first-Consumed n s popped p q)
