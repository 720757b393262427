-- ===== src/Common/Redis/Memory/Streams.antt =====
-- Streams whose IDs ascend, by construction.
use log_sump.Base.{
  ℕ, suc, ◌+◌, ◌≤◌, ◌≡◌, refl, ap, ◌∙◌, sym, Bool, List, [], ◌∷◌, ◌++◌, map, filterb, All,
  All-filter, append_assoc, append-nil, arith, Bool-cases, inl, inr, if◌then◌else◌,
}
use log_sump.Base.Text.{Text, ◌==◌, Bytes}
use log_sump.Base.Dict.{Dict}
use log_sump.Common.Redis.{XAdd}
use log_sump.Common.Redis.Laws.{Entry, IsAscending, max_seq}
use log_sump.Common.Redis.Ascending.{filter-IsAscending}

pub record Stream : Type 0 where
  pub entries : List Entry
  pub is_ascending : IsAscending entries
  pub is_bounded : All (λ e. e.id.seq ≤ max_seq) entries

abbrev pub no_entries : Stream
no_entries = record { entries = []; is_ascending = tt; is_bounded = tt }

unfoldable pub trimmed : (Entry → Bool) → Stream → Stream
trimmed p s = record {
  entries = filterb p s.entries;
  is_ascending = filter-IsAscending p s.entries s.is_ascending;
  is_bounded = All-filter _ p s.entries s.is_bounded;
}

-- A time past all entries.
unfoldable pub later : List Entry → ℕ
later [] = 0
later (e ∷ es) = suc (e.id.ms + later es)

abbrev pub fresh : ℕ → Dict Bytes → Entry
fresh ms fields = record { id = record { ms = ms; seq = 0 }; fields = fields }

pub All-snoc {ℓ κ} :
    {A : Type ℓ} (P : A → Type κ) (xs : List A) (y : A) → All P xs → P y → All P (xs ++ y ∷ [])
All-snoc P [] y h p = (p, tt)
All-snoc P (x ∷ xs) y h p = (h.0, All-snoc P xs y h.1 p)

pub snoc-IsAscending :
    (es : List Entry) (ms : ℕ) (fields : Dict Bytes)
    → later es ≤ ms
    → IsAscending es
    → IsAscending (es ++ fresh ms fields ∷ [])
unfolding later
snoc-IsAscending [] ms fields h a = (tt, tt)
snoc-IsAscending (e ∷ es) ms fields h a = (
  All-snoc _ es (fresh ms fields) a.0 (ground arith),
  snoc-IsAscending es ms fields (omega arith) a.1,
)

unfoldable pub extended : Dict Bytes → Stream → Stream
extended fields s = record {
  entries = s.entries ++ fresh (later s.entries) fields ∷ [];
  is_ascending = snoc-IsAscending s.entries (later s.entries) fields (omega arith) s.is_ascending;
  is_bounded = All-snoc _ s.entries (fresh (later s.entries) fields) s.is_bounded (omega arith);
}

-- The XADDs of `adds` whose key is `k`, on the stream of that key.
unfoldable pub extend_all : Text → List XAdd → Stream → Stream
extend_all k [] s = s
extend_all k (a ∷ adds) s = extend_all k adds (if k == a.key then extended a.fields s else s)

pub record Added (s t : Stream) (fields : List (Dict Bytes)) : Type 0 where
  pub new : List Entry
  pub behind : t.entries ≡ s.entries ++ new
  pub new_fields : map (λ e. e.fields) new ≡ fields

pub extend_all_lem :
    (k : Text) (adds : List XAdd) (s : Stream)
    → Added s (extend_all k adds s) (map (λ a. a.fields) (filterb (λ a. k == a.key) adds))
unfolding extend_all extended
extend_all_lem k [] s = record { new = []; behind = sym (append-nil _); new_fields = refl }
extend_all_lem k (a ∷ adds) s = elim (Bool-cases (k == a.key)) [
  | inl here ↦
      let rest = extend_all_lem k adds (extended a.fields s) in
      rw here (record {
        new = fresh (later s.entries) a.fields ∷ rest.new;
        behind = rest.behind ∙ append_assoc s.entries _ rest.new;
        new_fields = ap (λ l. a.fields ∷ l) rest.new_fields;
      })
  | inr other ↦ rw other (extend_all_lem k adds s)
]
