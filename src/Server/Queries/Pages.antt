-- ===== src/Server/Queries/Pages.antt =====
-- What a page of packages/log-sump-server/src/log_sump_server/queries.py holds, and a client's loop
-- over the pages.
use mathlib.Core.Option
use log_sump.Base.{
  ℕ, zero, suc, ◌<◌, ◌≡◌, refl, ap, Option, none, some, List, [], ◌∷◌, ◌++◌, map, if◌then◌else◌,
  length, last, All, nat_eq, arith, Bool-cases, Option-cases, inl, inr,
}
use log_sump.Base.Int.{ℤ, pos, eq_ℤ-pos}
use log_sump.Base.Text.{Text, codes, Bytes, bytes}
use log_sump.Base.Dict.{lookup}
use log_sump.Base.Errors.{ok, err, index_error}
use log_sump.Base.Exec.{Exec, pure, ◌>>=◌}
use log_sump.Common.Schema.{DateTime, Kind, Record, RecordAdapter}
use log_sump.Common.Redis.{Codec, Redis}
use log_sump.Common.Redis.StreamId.{StreamId, render, render-ascii}
use log_sump.Common.Redis.Laws.{Entry, reply}
use log_sump.Server.Queries.{keep, read_entries, next_cursor, page_of, fetch_kind_page}

module _ (adapter : RecordAdapter) (codec : Codec) where
  -- The entry holds a record under "data".
  pub record IsReadable (e : Entry) : Type 0 where
    pub content : Bytes
    pub held : lookup (codes "data") e.fields ≡ some content
    pub the_record : Record
    pub valid : adapter.validate_json (bytes content) ≡ some the_record

  -- The record that an entry holds, if it holds one.
  abbrev record_from : Option Bytes → Option Record
  record_from none = none
  record_from (some content) = adapter.validate_json (bytes content)

  unfoldable pub record_in : Entry → Option Record
  record_in e = record_from (lookup (codes "data") e.fields)

  record_in_readable : (e : Entry) (h : IsReadable e) → record_in e ≡ some h.the_record
  unfolding record_in
  record_in_readable e h = rw h.held h.valid

  -- The records of some entries, each with the ID of its entry; what holds no record is left out.
  unfoldable pub records_of : List Entry → List (Text × Record)
  records_of [] = []
  records_of (e ∷ es) =
      keep adapter codec (Option.map (λ r. (render e.id, r)) (record_in e)) (records_of es)

  -- The server skips an entry that holds no record, and raises nothing.
  read_entries-reply :
      (es : List Entry) → read_entries adapter codec (map reply es) ≡ ok (records_of es)
  unfolding read_entries records_of record_in
  read_entries-reply [] = refl
  read_entries-reply (e ∷ es) =
      rw (read_entries-reply es) (elim (Option-cases (lookup (codes "data") e.fields)) [
        | inl absent ↦ rw absent
        | inr (content, held) ↦ elim (Option-cases (adapter.validate_json (bytes content))) [
          | inl malformed ↦ rw (held, malformed)
          | inr (r, valid) ↦
              rw (held, valid) (rw (codec.decode_ascii (render e.id) (render-ascii e.id)))
        ]
      ])

  last-records_of :
      (es : List Entry) (h : All IsReadable es) (e : Entry)
      → last es ≡ some e
      → (r : Record) × (last (records_of es) ≡ some (render e.id, r))
  unfolding records_of
  last-records_of [] h e p = cc
  last-records_of (x ∷ []) h e p = (h.0.the_record, rw (record_in_readable x h.0) (ground arith))
  last-records_of (x ∷ y ∷ es) h e p =
      let (r, q) = last-records_of (y ∷ es) h.1 e p in
      let q' : last (keep adapter codec (some (render y.id, h.1.0.the_record)) (records_of es))
          ≡ some (render e.id, r) =
        rw (record_in_readable y h.1.0) at q in
      (r, rw (record_in_readable x h.0, record_in_readable y h.1.0) q')

  pub last_exists : (es : List Entry) → 0 < length es → (e : Entry) × (last es ≡ some e)
  last_exists [] p = absurd (omega arith)
  last_exists (x ∷ []) p = (x, refl)
  last_exists (x ∷ y ∷ es) p = last_exists (y ∷ es) (omega arith)

  length-reply : (es : List Entry) → length (map reply es) ≡ length es
  length-reply [] = refl
  length-reply (e ∷ es) = ap suc (length-reply es)

  -- The ID behind which the next page begins.
  abbrev pub next_of : ℕ → List Entry → Option StreamId
  next_of n es = if nat_eq (length es) (suc n) then Option.map (λ e. e.id) (last es) else none

  pub page_of-reply :
      (n : ℕ) (es : List Entry) (h : All IsReadable es)
      → page_of adapter codec (pos (suc n)) (map reply es)
        ≡ ok (records_of es, Option.map render (next_of n es))
  unfolding page_of next_cursor
  page_of-reply n es h =
      rw (read_entries-reply es, length-reply es, eq_ℤ-pos (length es) (suc n))
        (elim (Bool-cases (nat_eq (length es) (suc n))) [
          | inl full ↦
              let (e, is_last) = last_exists es (ground arith) in
              let (r, is_last_record) = last-records_of es h e is_last in
              rw (full, is_last, is_last_record)
          | inr short ↦ rw short
        ])

  pub page_of-malformed :
      (n : ℕ) (es : List Entry)
      → length es ≡ suc n
      → records_of es ≡ []
      → page_of adapter codec (pos (suc n)) (map reply es) ≡ err index_error
  unfolding page_of next_cursor
  page_of-malformed n es full none_valid =
      rw (read_entries-reply es, length-reply es, eq_ℤ-pos (length es) (suc n), none_valid)
        (ground arith)

  pub records_of-append :
      (xs ys : List Entry) → records_of (xs ++ ys) ≡ records_of xs ++ records_of ys
  unfolding records_of
  records_of-append [] ys = refl
  records_of-append (x ∷ xs) ys = ground (arith, records_of-append xs ys)

-- The client's side, and the pages that it sees.
module _ (adapter : RecordAdapter) (codec : Codec) (R : Redis) (epoch_ms : DateTime → ℤ)
    (docker_host : Text) (kind : Kind) (start end : DateTime) where
  -- The client's loop: it hands each cursor back until there is none.
  unfoldable pub follow_cursors : ℕ → ℤ → Option Text → Exec R.State (List (Text × Record))
  follow_cursors zero limit cursor = pure []
  follow_cursors (suc fuel) limit cursor =
      fetch_kind_page adapter codec R epoch_ms docker_host kind start end cursor limit >>= λ page.
      elim page.1 [
        | none ↦ pure page.0
        | some next ↦ (do rest ← follow_cursors fuel limit (some next); pure (page.0 ++ rest))
      ]
