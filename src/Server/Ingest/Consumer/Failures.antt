-- ===== src/Server/Ingest/Consumer/Failures.antt =====
-- What a call of packages/log-sump-server/src/log_sump_server/ingest/consumer.py that raises leaves
-- behind.
use log_sump.Base.{
  ℕ, zero, suc, ◌≤◌, ◌≡◌, sym, ap, ◌∙◌, subst, ◌⊎◌, inl, inr, List, [], ◌∷◌, ◌++◌, map, take, drop,
  length, length-take, take-append-drop, filterb, arith,
}
use log_sump.Base.Int.{pos}
use log_sump.Base.Text.{Text, ◌==◌}
use log_sump.Base.Errors.{Error, err, Result-cases}
use log_sump.Base.Exec.{Exec, bind_err}
use log_sump.Base.Remains.{Some}
use log_sump.Common.Schema.{RecordAdapter}
use log_sump.Common.RedisKeys.{ingest_list}
use log_sump.Common.Redis.{Raw, Redis, XAdd}
use log_sump.Common.Redis.Laws.{Entry, IsRedis}
use log_sump.Server.Ingest.Consumer.{take_rest, queued, ingest_batch, execute_if_any}
use log_sump.Server.Ingest.Consumer.Batches.{records_in, written, adds-written}
use log_sump.Server.Ingest.Consumer.Rounds.{take_rest-suc, lpop_rest}

-- The first list begins with up to n items that are not in the second, which is the rest of it.
pub record Cut {ℓ} {A : Type ℓ} (n : ℕ) (before after : List A) : Type ℓ where
  pub off : List A
  pub parts : before ≡ off ++ after
  pub short : length off ≤ n

-- The items are off the list, or none is.
pub drop-Cut {ℓ} :
    {A : Type ℓ} (n : ℕ) (before after : List A)
    → (after ≡ before) ⊎ (after ≡ drop n before)
    → Cut n before after
drop-Cut n before after (inl same) = record { off = []; parts = sym same; short = omega arith }
drop-Cut n before after (inr dropped) = record {
  off = take n before;
  parts = sym (take-append-drop n before) ∙ ap (λ l. take n before ++ l) (sym dropped);
  short = omega (arith, length-take n before);
}

module _ (adapter : RecordAdapter) (R : Redis) (laws : IsRedis R) where
  pub record TakeFailed (n : ℕ) (t u : R.State) : Type 0 where
    pub cut : Cut n (laws.queue t ingest_list) (laws.queue u ingest_list)
    pub same : (k : Text) → laws.stream u k ≡ laws.stream t k

  lpop_rest_failed :
      (m : ℕ) (t : R.State) {e : Error}
      → (lpop_rest adapter R laws m t).0 ≡ err e
      → TakeFailed (suc m) t (lpop_rest adapter R laws m t).1
  unfolding lpop_rest
  lpop_rest_failed m t failed = elim (Result-cases (R.lpop ingest_list (pos (suc m)) t).0) [
    | inl (reply, k) ↦ absurd (ground (arith, failed, k))
    | inr (e', k) ↦ rw (bind_err (R.lpop ingest_list (pos (suc m))) _ t k) (record {
      cut = drop-Cut (suc m) _ _ (laws.lpop-failed t ingest_list (suc m) k);
      same = laws.lpop-stream t _ _;
    })
  ]

  pub take_rest-TakeFailed :
      (n : ℕ) (t : R.State) {e : Error}
      → (take_rest adapter R (pos (suc n)) t).0 ≡ err e
      → TakeFailed n t (take_rest adapter R (pos (suc n)) t).1
  take_rest-TakeFailed zero t failed = absurd (ground (arith, failed))
  take_rest-TakeFailed (suc m) t {e} failed =
      let failed' =
        ap (λ (x : Exec R.State (List Raw)). (x t).0) (sym (take_rest-suc adapter R laws m))
        ∙ failed in
      rw (take_rest-suc adapter R laws m) (lpop_rest_failed m t failed')

  execute_failed :
      (adds : List XAdd) (s : R.State) {e : Error}
      → (execute_if_any adapter R adds s).0 ≡ err e
      → (k : Text)
      → (new : List Entry) × (laws.stream (execute_if_any adapter R adds s).1 k
          ≡ laws.stream s k ++ new)
        × Some (map (λ a. a.fields) (filterb (λ a. k == a.key) adds)) (map (λ e. e.fields) new)
  execute_failed [] s failed k = absurd (ground (arith, failed))
  execute_failed (a ∷ adds) s failed k = laws.pipeline-failed s (a ∷ adds) failed k

  -- Of a batch whose sending failed each stream got entries for some of the records of its daemon and
  -- kind, in their order.
  pub ingest_batch_failed :
      (batch : List Raw) (s : R.State) {e : Error}
      → (ingest_batch adapter R batch s).0 ≡ err e
      → (k : Text)
      → (new : List Entry) × (laws.stream (ingest_batch adapter R batch s).1 k
          ≡ laws.stream s k ++ new)
        × Some (written adapter k (records_in adapter batch)) (map (λ e. e.fields) new)
  unfolding ingest_batch
  ingest_batch_failed batch s failed k =
      let (new, behind, some_of) = execute_failed (queued adapter batch) s failed k in
      (
        new,
        behind,
        subst (λ l. Some l (map (λ e. e.fields) new)) (adds-written adapter k batch) some_of,
      )
