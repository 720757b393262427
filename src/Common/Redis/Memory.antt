-- ===== src/Common/Redis/Memory.antt =====
-- A Redis in memory, which shows that the laws can be met and on which the samples run: it answers
-- every call, and gives an added entry a time past all others.
pub mod Streams
use log_sump.Base.{
  ℕ, zero, suc, ◌≡◌, refl, ◌≢◌, ap, ◌∙◌, Option, none, some, List, [], ◌∷◌, map, take, drop,
  filterb, if◌then◌else◌, arith, inl, inr,
}
use log_sump.Base.Int.{ℤ, pos, negsuc}
use log_sump.Base.Text.{Text, ◌==◌, Str}
use log_sump.Base.Errors.{ok}
use log_sump.Base.Exec.{pure}
use log_sump.Common.Redis.{Raw, RawEntry, Redis}
use log_sump.Common.Redis.StreamId.{
  StreamId, Bound, render, read_id, read_bound, read_bound-text, read_id-render,
}
use log_sump.Common.Redis.Laws.{Entry, reply, in_range, kept_by, IsRedis}
use Streams.{trimmed, extend_all, extend_all_lem}
pub use Streams.{Stream, no_entries}

pub record Store : Type 0 where
  pub streams : Text → Stream
  pub queues : Text → List Raw
  pub sets : Text → List Str

abbrev pub empty_store : Store
empty_store = record { streams = λ k. no_entries; queues = λ k. []; sets = λ k. [] }

abbrev count_of : ℤ → ℕ
count_of (pos n) = n
count_of (negsuc n) = 0

-- f with f(k) = v
abbrev update {ℓ} : {A : Type ℓ} → (Text → A) → Text → A → Text → A
update f k v j = if j == k then v else f j

abbrev head_or_none : List Raw → Option Raw
head_or_none [] = none
head_or_none (x ∷ xs) = some x

abbrev items_or_none : List Raw → Option (List Raw)
items_or_none [] = none
items_or_none (x ∷ xs) = some (x ∷ xs)

abbrev found : List Entry → ℕ → Bound → StreamId → Option (List RawEntry)
found es n low high = some (map reply (take n (filterb (in_range low high) es)))

abbrev pub memory : Redis
memory = record {
  State = Store;
  smembers = λ k s. (ok (s.sets k), s);
  xrange = λ k low high n s.
      (ok (found (s.streams k).entries (count_of n) (read_bound low) (read_id high)), s);
  xtrim = λ k m s.
      (ok (pos 0), record s { streams = update s.streams k (trimmed (kept_by m) (s.streams k)) });
  pipeline_execute = λ adds s. (ok tt, record s { streams = λ k. extend_all k adds (s.streams k) });
  blpop = λ k s. (
    ok (head_or_none (s.queues k)),
    record s { queues = update s.queues k (drop 1 (s.queues k)) },
  );
  lpop = λ k n s. (
    ok (items_or_none (take (count_of n) (s.queues k))),
    record s { queues = update s.queues k (drop (count_of n) (s.queues k)) },
  );
  ping = λ s. (ok tt, s);
}

unfoldable pub memory-IsRedis : IsRedis memory
unfolding trimmed
memory-IsRedis = record {
  stream = λ s k. (s.streams k).entries;
  queue = λ s k. s.queues k;
  ascending = λ s k. (s.streams k).is_ascending;
  seq_bound = λ s k. (s.streams k).is_bounded;
  xrange-reply = λ s k low high n e. cc (
    e,
    ap (λ b. found (s.streams k).entries (suc n) b (read_id (render high))) (read_bound-text low),
    ap (found (s.streams k).entries (suc n) low) (read_id-render high),
  );
  xrange-stream = λ s k low high n j. refl;
  xtrim-raises = λ s k m h. cc;
  xtrim-done = λ s k m h. ground arith;
  xtrim-failed = λ s k m h. cc;
  xtrim-else = λ s k m j h. ground arith;
  xtrim-queue = λ s k m j. refl;
  pipeline-added = λ s adds h k.
      let added = extend_all_lem k adds (s.streams k) in
      (added.new, added.behind, added.new_fields);
  pipeline-failed = λ s adds h k. cc;
  pipeline-queue = λ s adds k. refl;
  blpop-empty = λ s k h e. ground arith;
  blpop-head = λ s k x xs h e. ground arith;
  blpop-failed = λ s k h. cc;
  blpop-stream = λ s k j. refl;
  lpop-empty = λ s k n h e. ground arith;
  lpop-head = λ s k n x xs h e. ground arith;
  lpop-failed = λ s k n h. cc;
  lpop-stream = λ s k n j. refl;
}
