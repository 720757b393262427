-- ===== src/Server/Queries/Complete.antt =====
-- Paging through a kind's records with packages/log-sump-server/src/log_sump_server/queries.py, by
-- the cursors that it hands out.
use mathlib.Core.Option
use log_sump.Base.{
  Bool, leb, ◌&&◌, ◌∷◌, ℕ, zero, suc, ◌≤◌, ◌<◌, ◌≡◌, refl, sym, ap, ◌∙◌, Option, none, some, List,
  [], ◌++◌, length, last, take, drop, filterb, All, All-filter, nat_eq, arith, take-append-drop,
  length-take, length-drop, Bool-cases, inl, inr, take_all, All-take, All-drop, map,
}
use log_sump.Base.Int.{ℤ, pos}
use log_sump.Base.Text.{Text}
use log_sump.Base.Errors.{ok, err, index_error}
use log_sump.Base.Exec.{Exec, pure, ◌>>=◌, bind_ok, state_lift}
use log_sump.Common.Schema.{DateTime, Kind, Record, RecordAdapter}
use log_sump.Common.RedisKeys.{stream_key}
use log_sump.Common.Redis.{Codec, RawEntry, Redis}
use log_sump.Common.Redis.StreamId.{StreamId, render, truthy-render, Bound, from, after, bound_text}
use log_sump.Common.Redis.Laws.{Entry, reply, max_seq, in_range, IsRedis}
use log_sump.Common.Redis.Ascending.{range_after_page}
use log_sump.Server.Queries.{show_int, range_start, id_floor, id_ceiling, page_of, fetch_kind_page}
use log_sump.Server.Queries.Pages.{
  IsReadable, records_of, records_of-append, next_of, last_exists, page_of-reply, page_of-malformed,
  follow_cursors,
}

-- The entries whose time lies in the range, its ends included.
abbrev pub in_time : ℕ → ℕ → Entry → Bool
in_time first last_ms e = leb first e.id.ms && leb e.id.ms last_ms

module _ (adapter : RecordAdapter) (codec : Codec) (R : Redis) (laws : IsRedis R)
    (epoch_ms : DateTime → ℤ) (docker_host : Text) (kind : Kind) (start end : DateTime)
    (from_ms to_ms : ℕ) (starts : epoch_ms start ≡ pos from_ms) (ends : epoch_ms end ≡ pos to_ms)
    (n : ℕ) where
  abbrev high : StreamId
  high = record { ms = to_ms; seq = max_seq }

  abbrev low : Option StreamId → Bound
  low none = from (record { ms = from_ms; seq = 0 })
  low (some i) = after i

  abbrev pub key : Text
  key = stream_key docker_host kind

  abbrev pub entries : R.State → List Entry
  entries s = laws.stream s key

  -- What is left of the range behind the place of a cursor.
  abbrev left : Option StreamId → R.State → List Entry
  left o s = filterb (in_range (low o) high) (entries s)

  low_text :
      (o : Option StreamId) → range_start epoch_ms (Option.map render o) start ≡ bound_text (low o)
  unfolding id_floor show_int render
  low_text none = rw starts
  low_text (some i) = rw (truthy-render i)

  high_text : id_ceiling epoch_ms end ≡ render high
  unfolding id_ceiling show_int render
  high_text = rw ends

  -- XRANGE answers.
  abbrev pub Answers : Type 0
  Answers =
      (s : R.State) (low_bound : Text)
      → (r : Option (List RawEntry)) × ((R.xrange key low_bound (id_ceiling epoch_ms end)
            (pos (suc n)) s).0
          ≡ ok r)

  abbrev fetch : Option StreamId → Exec R.State (List (Text × Record) × Option Text)
  fetch o =
      fetch_kind_page adapter codec R epoch_ms docker_host kind start end (Option.map render o)
        (pos (suc n))

  abbrev page : Option StreamId → R.State → List Entry
  page o s = take (suc n) (left o s)

  asked :
      (o : Option StreamId) (s : R.State) {r : Option (List RawEntry)}
      → (R.xrange key
          (range_start epoch_ms (Option.map render o) start)
          (id_ceiling epoch_ms end)
          (pos (suc n))
          s).0
        ≡ ok r
      → (R.xrange key (bound_text (low o)) (render high) (pos (suc n)) s).0 ≡ ok r
  asked o s h = rw (← low_text o, ← high_text) h

  -- A page is made of the next n + 1 entries of the range.
  fetch-page_of :
      (answers : Answers) (o : Option StreamId) (s : R.State)
      → (fetch o s).0 ≡ page_of adapter codec (pos (suc n)) (map reply (page o s))
  unfolding fetch_kind_page
  fetch-page_of answers o s =
      let (r, got) = answers s (range_start epoch_ms (Option.map render o) start) in
      let is_page : r ≡ some (map reply (page o s)) =
        laws.xrange-reply s key (low o) high n (asked o s got) in
      ap (λ p. p.0) (bind_ok (R.xrange key _ _ _) _ s got)
      ∙ ap (λ x. page_of adapter codec (pos (suc n)) (Option.get_or x [])) is_page

  fetch-page :
      (answers : Answers) (o : Option StreamId) (s : R.State)
      → All (IsReadable adapter codec) (page o s)
      → (fetch o s).0
        ≡ ok (
          records_of adapter codec (page o s),
          Option.map render (next_of adapter codec n (page o s)),
        )
  fetch-page answers o s h = fetch-page_of answers o s ∙ page_of-reply adapter codec n (page o s) h

  -- Reading changes no stream.
  fetch-entries : (o : Option StreamId) (s : R.State) → entries (fetch o s).1 ≡ entries s
  unfolding fetch_kind_page
  fetch-entries o s =
      ap (λ (t : R.State). laws.stream t key) (state_lift (R.xrange key _ _ _) _ s)
      ∙ laws.xrange-stream s key _ _ _ key

  left_after :
      (o : Option StreamId) (s : R.State) (e : Entry)
      → last (page o s) ≡ some e
      → left (some e.id) (fetch o s).1 ≡ drop (suc n) (left o s)
  left_after o s e is_last =
      ap (filterb (in_range (after e.id) high)) (fetch-entries o s)
      ∙ range_after_page n (low o) high (entries s) e (laws.ascending s key) is_last

  abbrev follow : ℕ → Option StreamId → Exec R.State (List (Text × Record))
  follow fuel o =
      follow_cursors adapter codec R epoch_ms docker_host kind start end fuel (pos (suc n))
        (Option.map render o)

  abbrev records : List Entry → List (Text × Record)
  records = records_of adapter codec

  -- A page and what the later pages bring are the whole of what was left.
  follow_on :
      (fuel : ℕ) (o : Option StreamId) (s : R.State) (e : Entry)
      → last (page o s) ≡ some e
      → (follow fuel (some e.id) (fetch o s).1).0 ≡ ok (records (left (some e.id) (fetch o s).1))
      → ((do rest ← follow fuel (some e.id); pure (records (page o s) ++ rest)) (fetch o s).1).0
        ≡ ok (records (left o s))
  follow_on fuel o s e is_last ih =
      ap (λ p. p.0) (bind_ok (follow fuel (some e.id)) _ (fetch o s).1 ih)
      ∙ ap (λ es. ok (records (page o s) ++ records es)) (left_after o s e is_last)
      ∙ ap ok (sym (records_of-append adapter codec (page o s) (drop (suc n) (left o s))))
      ∙ ap (λ es. ok (records es)) (take-append-drop (suc n) (left o s))

  length-left_after :
      (fuel : ℕ) (o : Option StreamId) (s : R.State) (e : Entry)
      → last (page o s) ≡ some e
      → length (left o s) < suc fuel
      → 0 < length (left o s)
      → length (left (some e.id) (fetch o s).1) < fuel
  length-left_after fuel o s e is_last l some_left =
      omega (arith, ap length (left_after o s e is_last), length-drop (suc n) (left o s))

  follow_lem :
      (answers : Answers) (fuel : ℕ) (o : Option StreamId) (s : R.State)
      → All (IsReadable adapter codec) (left o s)
      → length (left o s) < fuel
      → (follow fuel o s).0 ≡ ok (records (left o s))
  unfolding follow_cursors
  follow_lem answers zero o s h l = absurd (omega arith)
  follow_lem answers (suc fuel) o s h l =
      ap (λ p. p.0)
        (bind_ok (fetch o) _ s (fetch-page answers o s (All-take _ (suc n) (left o s) h)))
      ∙ elim (Bool-cases (nat_eq (length (page o s)) (suc n))) [
        | inl full ↦
            let (e, is_last) = last_exists adapter codec (page o s) (ground arith) in
            let rest : All (IsReadable adapter codec) (left (some e.id) (fetch o s).1) =
              rw (left_after o s e is_last) (All-drop _ (suc n) (left o s) h) in
            rw (full, is_last)
              (follow_on fuel o s e is_last (
                follow_lem answers fuel (some e.id) (fetch o s).1 rest (
                  length-left_after fuel o s e is_last l
                    (ground (arith, length-take (suc n) (left o s))))))
        | inr short ↦
            let whole : page o s ≡ left o s =
              take_all (suc n) (left o s) (ground (arith, length-take (suc n) (left o s))) in
            rw short (ap (λ es. ok (records_of adapter codec es)) whole)
      ]

  in_range-eq-in_time :
      (es : List Entry)
      → All (λ e. e.id.seq ≤ max_seq) es
      → filterb (in_range (low none) high) es ≡ filterb (in_time from_ms to_ms) es
  in_range-eq-in_time [] h = refl
  in_range-eq-in_time (e ∷ es) h = let bound = h.0 in ground (arith, in_range-eq-in_time es h.1)

  -- From a start time to an end time, both in milliseconds since 1970, and with a page size of at
  -- least one: if Redis answers and each entry of the stream holds a valid record, a client that
  -- hands each cursor back, for more rounds than the range has entries, gets the record of every
  -- entry whose time is in the range, each once, in the order of the stream.
  pub follow_cursors_complete :
      (answers : Answers) (fuel : ℕ) (s : R.State)
      → All (IsReadable adapter codec) (entries s)
      → length (filterb (in_time from_ms to_ms) (entries s)) < fuel
      → (follow_cursors adapter codec R epoch_ms docker_host kind start end fuel
          (pos (suc n))
          none
          s).0
        ≡ ok (records_of adapter codec (filterb (in_time from_ms to_ms) (entries s)))
  follow_cursors_complete answers fuel s h l =
      let same = in_range-eq-in_time (entries s) (laws.seq_bound s key) in
      follow_lem answers fuel none s (All-filter _ _ (entries s) h) (omega (arith, ap length same))
      ∙ ap (λ es. ok (records es)) same

  -- Where a page is full and none of its entries holds a valid record, the handler raises IndexError
  -- in place of an empty page.
  pub fetch_kind_page-malformed :
      (answers : Answers) (o : Option StreamId) (s : R.State)
      → length (page o s) ≡ suc n
      → records_of adapter codec (page o s) ≡ []
      → (fetch o s).0 ≡ err index_error
  fetch_kind_page-malformed answers o s full malformed =
      fetch-page_of answers o s ∙ page_of-malformed adapter codec n (page o s) full malformed
