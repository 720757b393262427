-- ===== src/Server/Ingest/Interleaved/Ledger.antt =====
-- What the items of the ingest list and the entries of the streams add up to, before and behind a
-- trim of packages/log-sump-server/src/log_sump_server/ingest/trimmer.py.
use log_sump.Base.{
  ℕ, ◌≡◌, refl, sym, ap, ◌∙◌, subst, ◌⊎◌, inl, inr, Bool, true, false, List, [], ◌∷◌, ◌++◌,
  append-nil, append_assoc, map, length, filterb, if◌then◌else◌, suc, ◌+◌, ◌*◌, ◌≤◌, arith,
}
use log_sump.Base.Int.{ℤ}
use log_sump.Base.Text.{Text, Bytes, text_discrete}
use log_sump.Base.Dict.{Dict}
use log_sump.Base.Remains.{
  Remains, Some, Remains-self, Remains-weaken, Remains-append, Remains-filter,
}
use log_sump.Base.Errors.{Result-cases}
use log_sump.Common.Schema.{Kind, RecordAdapter}
use log_sump.Common.RedisKeys.{ingest_list, stream_key}
use log_sump.Common.Redis.{Raw, Redis}
use log_sump.Common.Redis.Laws.{Entry, kept_by, IsRedis}
use log_sump.Server.Ingest.Consumer.Batches.{records_in, written, Appended}
use log_sump.Server.Ingest.Trimmer.{trim_stream}
use log_sump.Server.Ingest.Trimmer.Retention.{trim_stream_lem}
use log_sump.Server.Ingest.Consumer.Draining.{Appended-trans}
use log_sump.Server.Ingest.Interleaved.{Hand, nothing, in_hand, World, begun}

-- Some trim of the stream was to remove the entry.
abbrev pub TooOld : List (Text × ℤ) → Text → Entry → Type 0
TooOld [] k e = ⊥
TooOld (t ∷ ts) k e = ((t.0 ≡ k) × (kept_by t.1 e ≡ false)) ⊎ TooOld ts k e

-- Items that the consumer took at a time and has no longer in hand, and whether they were sent.
pub record Gone : Type 0 where
  pub items : List Raw
  pub sent : Bool

-- All of them, the last ones first in the list, and how many of them were not sent.
abbrev pub gone : List Gone → List Raw
gone [] = []
gone (g ∷ past) = gone past ++ g.items

abbrev pub lost : List Gone → ℕ
lost [] = 0
lost (g ∷ past) = (if g.sent then 0 else length g.items) + lost past

module _ (adapter : RecordAdapter) (R : Redis) (laws : IsRedis R) (n : ℕ) where
  abbrev pub list : R.State → List Raw
  list s = laws.queue s ingest_list

  -- What a stream got for some items: an entry for each valid record of its daemon and kind, in
  -- order, or, where sending them failed, for some of these records.
  abbrev pub Got : Bool → List (Dict Bytes) → List (Dict Bytes) → Type 0
  Got true wanted new = new ≡ wanted
  Got false wanted new = Some wanted new

  -- What a stream got for all items that are gone.
  abbrev pub Wrote : Text → List Gone → List (Dict Bytes) → Type 0
  Wrote k [] fields = fields ≡ []
  Wrote k (g ∷ past) fields =
      (old : List (Dict Bytes)) × (new : List (Dict Bytes)) × (fields ≡ old ++ new)
      × Wrote k past old
      × Got g.sent (written adapter k (records_in adapter g.items)) new

  -- Everything that a stream ever held: what it held at the start, and behind it what it got. What it
  -- holds now is what remains of this.
  pub record Kept (s0 : R.State) (past : List Gone) (w : World adapter R laws n) (k : Text)
      : Type 0 where
    pub ever : List Entry
    pub fields : List (Dict Bytes)
    pub added : Appended (laws.stream s0 k) ever fields
    pub wrote : Wrote k past fields
    pub remains : Remains (TooOld w.trims k) ever (laws.stream w.state k)

  -- The items that the list had and got are, in this order, those that are gone, those in the
  -- consumer's hand and those on the list, and no more than a batch for each failure are gone without
  -- having been sent.
  pub record IsConserved (s0 : R.State) (w : World adapter R laws n) : Type 0 where
    pub past : List Gone
    pub items : list s0 ++ w.pushed ≡ gone past ++ (in_hand w.hand ++ list w.state)
    pub small : length (in_hand w.hand) ≤ suc n
    pub few : lost past ≤ w.failures * suc n
    pub streams : (k : Text) → Kept s0 past w k

  pub begun-IsConserved : (s0 : R.State) → IsConserved s0 (begun adapter R laws n s0)
  begun-IsConserved s0 = record {
    past = [];
    items = append-nil (list s0);
    small = omega arith;
    few = omega arith;
    streams = λ k. record {
      ever = laws.stream s0 k;
      fields = [];
      added = record { new = []; behind = sym (append-nil _); holds = refl };
      wrote = refl;
      remains = Remains-self _ (laws.stream s0 k);
    };
  }

  module _ (s0 : R.State) (w : World adapter R laws n) (i : IsConserved s0 w) where
    -- A call that leaves the streams alone.
    pub same-Kept :
        (s : R.State) (h : Hand) (pushed : List Raw) (k : Text)
        → laws.stream s k ≡ laws.stream w.state k
        → Kept s0 i.past (record w { state = s; hand = h; pushed = pushed }) k
    same-Kept s h pushed k e =
        let kept = i.streams k in
        record {
          ever = kept.ever;
          fields = kept.fields;
          added = kept.added;
          wrote = kept.wrote;
          remains = subst (Remains (TooOld w.trims k) kept.ever) (sym e) kept.remains;
        }

    -- What a stream got in a call.
    pub record Grew (sent : Bool) (xs : List Raw) (s : R.State) (k : Text) : Type 0 where
      pub new : List Entry
      pub behind : laws.stream s k ≡ laws.stream w.state k ++ new
      pub holds : Got sent (written adapter k (records_in adapter xs)) (map (λ e. e.fields) new)

    -- A call behind which the consumer has nothing in hand.
    pub goes-IsConserved :
        (s : R.State) (xs : List Raw) (sent : Bool) (failures : ℕ)
        → in_hand w.hand ++ list w.state ≡ xs ++ list s
        → lost (record { items = xs; sent = sent } ∷ i.past) ≤ failures * suc n
        → ((k : Text) → Grew sent xs s k)
        → IsConserved s0 (record w { state = s; hand = nothing; failures = failures })
    goes-IsConserved s xs sent failures same few grew = record {
      past = record { items = xs; sent = sent } ∷ i.past;
      items =
          i.items ∙ ap (λ l. gone i.past ++ l) same ∙ sym (append_assoc (gone i.past) xs (list s));
      small = omega arith;
      few = few;
      streams = λ k.
          let kept = i.streams k in
          let g = grew k in
          record {
            ever = kept.ever ++ g.new;
            fields = kept.fields ++ map (λ e. e.fields) g.new;
            added = Appended-trans kept.added (record { new = g.new; behind = refl; holds = refl });
            wrote = (kept.fields, map (λ e. e.fields) g.new, refl, kept.wrote, g.holds);
            remains =
                subst (Remains (TooOld w.trims k) (kept.ever ++ g.new)) (sym g.behind)
                  (Remains-append _ _ _ g.new kept.remains);
          };
    }

    -- The stream that was trimmed, and the others.
    trimmed-Remains :
        (key k : Text) (m : ℤ)
        → Remains
            (TooOld ((key, m) ∷ w.trims) k)
            (i.streams k).ever
            (laws.stream (R.xtrim key m w.state).1 k)
    trimmed-Remains key k m =
        let kept = i.streams k in
        let Lost = TooOld ((key, m) ∷ w.trims) k in
        let weaker : Remains Lost kept.ever (laws.stream w.state k) =
          Remains-weaken (TooOld w.trims k) Lost _ _ (λ e l. inr l) kept.remains in
        elim (text_discrete k key) [
          | no differ ↦
              subst (Remains Lost kept.ever) (sym (laws.xtrim-else w.state key m k differ)) weaker
          | yes same ↦
              let trimmed : Remains Lost kept.ever (filterb (kept_by m) (laws.stream w.state k)) =
                Remains-filter Lost (kept_by m) _ _ (λ e l. inl (sym same, l)) weaker in
              subst (λ j. Remains Lost kept.ever (laws.stream (R.xtrim j m w.state).1 k)) same
                (elim (Result-cases (R.xtrim k m w.state).0) [
                  | inl (c, done) ↦
                      subst (Remains Lost kept.ever) (sym (laws.xtrim-done w.state k m done))
                        trimmed
                  | inr (x, failed) ↦ elim (laws.xtrim-failed w.state k m failed) [
                    | inl left ↦ subst (Remains Lost kept.ever) (sym left) weaker
                    | inr cut ↦ subst (Remains Lost kept.ever) (sym cut) trimmed
                  ]
                ])
        ]

    pub trims-IsConserved :
        (h : Text) (kind : Kind) (m : ℤ)
        → IsConserved s0 (record w {
          state = (trim_stream R h kind m w.state).1;
          trims = (stream_key h kind, m) ∷ w.trims;
        })
    trims-IsConserved h kind m =
        let after : (trim_stream R h kind m w.state).1 ≡ (R.xtrim (stream_key h kind) m w.state).1 =
          ap (λ r. r.1) (trim_stream_lem R laws h kind m w.state) in
        record {
          past = i.past;
          small = i.small;
          few = i.few;
          items =
              i.items
              ∙ ap (λ l. gone i.past ++ (in_hand w.hand ++ l))
                  (sym (laws.xtrim-queue w.state (stream_key h kind) m ingest_list)
                    ∙ ap list (sym after));
          streams = λ k. record {
            ever = (i.streams k).ever;
            fields = (i.streams k).fields;
            added = (i.streams k).added;
            wrote = (i.streams k).wrote;
            remains =
                subst
                  (λ s.
                    Remains (TooOld ((stream_key h kind, m) ∷ w.trims) k) (i.streams k).ever
                      (laws.stream s k))
                  (sym after) (trimmed-Remains (stream_key h kind) k m);
          };
        }
