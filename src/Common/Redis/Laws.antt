-- ===== src/Common/Redis/Laws.antt =====
-- What the documentation of Redis says of the calls, over a view of the server's state: the entries
-- of each stream, in the order of their IDs, and the items of each list.
use log_sump.Base.{
  ℕ, suc, ◌^◌, ◌-◌, ◌≤◌, ◌≡◌, ◌≢◌, ◌⊎◌, Bool, true, ◌&&◌, Option, none, some, List, [], ◌∷◌, ◌++◌,
  map, take, drop, filterb, All,
}
use log_sump.Base.Int.{ℤ, pos, leb_ℤ}
use log_sump.Base.Text.{Text, ◌==◌, Bytes, bytes}
use log_sump.Base.Dict.{Dict}
use log_sump.Base.Remains.{Some}
use log_sump.Base.Errors.{Error, ok, err, redis_error}
use log_sump.Common.Redis.{Raw, RawEntry, XAdd, Redis}
use log_sump.Common.Redis.StreamId.{StreamId, id_lt, id_le, render, Bound, bound_text, above}

-- One entry of a stream.
pub record Entry : Type 0 where
  pub id : StreamId
  pub fields : Dict Bytes

abbrev pub reply : Entry → RawEntry
reply e = record { entry_id = some (bytes (render e.id)); fields = some e.fields }

abbrev pub max_seq : ℕ
max_seq = 2 ^ 64 - 1

-- The IDs of a stream ascend.
abbrev pub IsAscending : List Entry → Type 0
IsAscending [] = Unit
IsAscending (e ∷ es) = All (λ e'. id_lt e.id e'.id ≡ true) es × IsAscending es

abbrev pub in_range : Bound → StreamId → Entry → Bool
in_range low high e = above low e.id && id_le e.id high

-- XTRIM MINID keeps what is not below the threshold.
abbrev pub kept_by : ℤ → Entry → Bool
kept_by minid e = leb_ℤ minid (pos e.id.ms)

pub record IsRedis (R : Redis) : Type 0 where
  pub stream : R.State → Text → List Entry
  pub queue : R.State → Text → List Raw
  pub ascending : (s : R.State) (k : Text) → IsAscending (stream s k)
  pub seq_bound : (s : R.State) (k : Text) → All (λ e. e.id.seq ≤ max_seq) (stream s k)
  -- XRANGE returns the first `count` entries between its bounds and changes nothing.
  pub xrange-reply :
      (s : R.State) (k : Text) (low : Bound) (high : StreamId) (n : ℕ) {r : Option (List RawEntry)}
      → (R.xrange k (bound_text low) (render high) (pos (suc n)) s).0 ≡ ok r
      → r ≡ some (map reply (take (suc n) (filterb (in_range low high) (stream s k))))
  pub xrange-stream :
      (s : R.State) (k low high : Text) (n : ℤ) (j : Text)
      → stream (R.xrange k low high n s).1 j ≡ stream s j
  -- XTRIM MINID drops the entries below the threshold of one stream. Where the reply is lost the
  -- server may have done so or not.
  pub xtrim-raises :
      (s : R.State) (k : Text) (m : ℤ) {e : Error} → (R.xtrim k m s).0 ≡ err e → e ≡ redis_error
  pub xtrim-done :
      (s : R.State) (k : Text) (m : ℤ) {n : ℤ}
      → (R.xtrim k m s).0 ≡ ok n
      → stream (R.xtrim k m s).1 k ≡ filterb (kept_by m) (stream s k)
  pub xtrim-failed :
      (s : R.State) (k : Text) (m : ℤ) {e : Error}
      → (R.xtrim k m s).0 ≡ err e
      → (stream (R.xtrim k m s).1 k ≡ stream s k)
        ⊎ (stream (R.xtrim k m s).1 k ≡ filterb (kept_by m) (stream s k))
  pub xtrim-else :
      (s : R.State) (k : Text) (m : ℤ) (j : Text) → j ≢ k → stream (R.xtrim k m s).1 j ≡ stream s j
  pub xtrim-queue :
      (s : R.State) (k : Text) (m : ℤ) (j : Text) → queue (R.xtrim k m s).1 j ≡ queue s j
  -- A pipeline of XADDs, once executed, has added one entry for each command behind the entries of
  -- the command's stream, in the order of the commands.
  pub pipeline-added :
      (s : R.State) (adds : List XAdd)
      → (R.pipeline_execute adds s).0 ≡ ok tt
      → (k : Text)
      → (new : List Entry) × (stream (R.pipeline_execute adds s).1 k ≡ stream s k ++ new)
        × (map (λ e. e.fields) new ≡ map (λ a. a.fields) (filterb (λ a. k == a.key) adds))
  -- Where it fails, some of the commands may have been executed: it is no transaction.
  pub pipeline-failed :
      (s : R.State) (adds : List XAdd) {e : Error}
      → (R.pipeline_execute adds s).0 ≡ err e
      → (k : Text)
      → (new : List Entry) × (stream (R.pipeline_execute adds s).1 k ≡ stream s k ++ new)
        × Some (map (λ a. a.fields) (filterb (λ a. k == a.key) adds)) (map (λ e. e.fields) new)
  pub pipeline-queue :
      (s : R.State) (adds : List XAdd) (k : Text)
      → queue (R.pipeline_execute adds s).1 k ≡ queue s k
  -- BLPOP takes the head of a list, or times out on an empty one.
  pub blpop-empty :
      (s : R.State) (k : Text) {r : Option Raw}
      → queue s k ≡ []
      → (R.blpop k s).0 ≡ ok r
      → (r ≡ none) × (queue (R.blpop k s).1 k ≡ [])
  pub blpop-head :
      (s : R.State) (k : Text) (x : Raw) (xs : List Raw) {r : Option Raw}
      → queue s k ≡ x ∷ xs
      → (R.blpop k s).0 ≡ ok r
      → (r ≡ some x) × (queue (R.blpop k s).1 k ≡ xs)
  -- Where the reply of a pop is lost, the items may be off the list or not.
  pub blpop-failed :
      (s : R.State) (k : Text) {e : Error}
      → (R.blpop k s).0 ≡ err e
      → (queue (R.blpop k s).1 k ≡ queue s k) ⊎ (queue (R.blpop k s).1 k ≡ drop 1 (queue s k))
  pub blpop-stream : (s : R.State) (k j : Text) → stream (R.blpop k s).1 j ≡ stream s j
  -- LPOP takes up to `count` items from the head; on an empty list it returns nothing.
  pub lpop-empty :
      (s : R.State) (k : Text) (n : ℕ) {r : Option (List Raw)}
      → queue s k ≡ []
      → (R.lpop k (pos (suc n)) s).0 ≡ ok r
      → (r ≡ none) × (queue (R.lpop k (pos (suc n)) s).1 k ≡ [])
  pub lpop-head :
      (s : R.State) (k : Text) (n : ℕ) (x : Raw) (xs : List Raw) {r : Option (List Raw)}
      → queue s k ≡ x ∷ xs
      → (R.lpop k (pos (suc n)) s).0 ≡ ok r
      → (r ≡ some (x ∷ take n xs)) × (queue (R.lpop k (pos (suc n)) s).1 k ≡ drop n xs)
  pub lpop-failed :
      (s : R.State) (k : Text) (n : ℕ) {e : Error}
      → (R.lpop k (pos n) s).0 ≡ err e
      → (queue (R.lpop k (pos n) s).1 k ≡ queue s k)
        ⊎ (queue (R.lpop k (pos n) s).1 k ≡ drop n (queue s k))
  pub lpop-stream :
      (s : R.State) (k : Text) (n : ℤ) (j : Text) → stream (R.lpop k n s).1 j ≡ stream s j
