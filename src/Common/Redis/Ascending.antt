-- ===== src/Common/Redis/Ascending.antt =====
-- Filters and cuts of a stream whose IDs ascend.
use log_sump.Base.{
  ℕ, zero, suc, ◌≡◌, refl, sym, ◌∙◌, Bool, true, false, some, List, [], ◌∷◌, take, drop, last,
  filterb, All, All-filterb, All-filter, filter-All, arith, Bool-cases, inl, inr,
}
use mathlib.Core.Path.{subst}
use mathlib.Core.Option.{some-injective}
use log_sump.Common.Redis.StreamId.{StreamId, id_lt, Bound, from, after, above}
use log_sump.Common.Redis.Laws.{Entry, IsAscending, in_range}

pub filter-IsAscending :
    (p : Entry → Bool) (es : List Entry) → IsAscending es → IsAscending (filterb p es)
filter-IsAscending p [] h = tt
filter-IsAscending p (e ∷ es) h = elim (Bool-cases (p e)) [
  | inl t ↦ rw t (All-filter _ p es h.0, filter-IsAscending p es h.1)
  | inr t ↦ rw t (filter-IsAscending p es h.1)
]

-- What holds of all elements holds of the last of the first n.
All-last_take {ℓ κ} :
    {A : Type ℓ} (P : A → Type κ) (n : ℕ) (xs : List A) {x : A}
    → All P xs
    → last (take n xs) ≡ some x
    → P x
All-last_take P zero xs h e = cc
All-last_take P (suc n) [] h e = cc
All-last_take P (suc zero) (y ∷ xs) {x} h e = subst P (some-injective y x e) h.0
All-last_take P (suc (suc n)) (y ∷ []) {x} h e = subst P (some-injective y x e) h.0
All-last_take P (suc (suc n)) (y ∷ z ∷ xs) h e = All-last_take P (suc n) (z ∷ xs) h.1 e

above_trans :
    (low : Bound) (i j : StreamId) → above low i ≡ true → id_lt i j ≡ true → above low j ≡ true
above_trans (from l) i j h k = ground arith
above_trans (after l) i j h k = ground arith

-- To go on behind an ID of the range is to filter the range.
filter_after :
    (low : Bound) (high i : StreamId) (es : List Entry)
    → above low i ≡ true
    → filterb (in_range (after i) high) es
      ≡ filterb (λ e. id_lt i e.id) (filterb (in_range low high) es)
filter_after low high i [] h = refl
filter_after low high i (e ∷ es) h =
    ground (arith, filter_after low high i es h, above_trans low i e.id h)

id_lt_irrefl : (i : StreamId) → id_lt i i ≡ false
id_lt_irrefl i = ground arith

id_lt_asym : (i j : StreamId) → id_lt i j ≡ true → id_lt j i ≡ false
id_lt_asym i j h = ground arith

-- In an ascending list, what lies behind the n-th entry is the list without its first n.
filter_behind :
    (n : ℕ) (es : List Entry) (e : Entry)
    → IsAscending es
    → last (take (suc n) es) ≡ some e
    → filterb (λ e'. id_lt e.id e'.id) es ≡ drop (suc n) es
filter_behind n [] e a h = refl
filter_behind zero (x ∷ xs) e a h =
    subst (λ (v : Entry). filterb (λ e'. id_lt v.id e'.id) (x ∷ xs) ≡ xs) (some-injective x e h)
      (rw (id_lt_irrefl x.id) (filter-All _ xs a.0))
filter_behind (suc n) (x ∷ []) e a h =
    let same : e ≡ x = sym (some-injective x e h) in rw same (rw (id_lt_irrefl x.id))
filter_behind (suc n) (x ∷ y ∷ xs) e a h =
    rw (id_lt_asym x.id e.id (All-last_take _ (suc n) (y ∷ xs) a.0 h))
      (filter_behind n (y ∷ xs) e a.1 h)

-- The range behind the last entry of a page is the rest of the range.
pub range_after_page :
    (n : ℕ) (low : Bound) (high : StreamId) (es : List Entry) (e : Entry)
    → IsAscending es
    → last (take (suc n) (filterb (in_range low high) es)) ≡ some e
    → filterb (in_range (after e.id) high) es ≡ drop (suc n) (filterb (in_range low high) es)
range_after_page n low high es e a h =
    let page : List Entry = filterb (in_range low high) es in
    let inside : in_range low high e ≡ true =
      All-last_take (λ x. in_range low high x ≡ true) (suc n) page (All-filterb _ es) h in
    let above_low : above low e.id ≡ true = ground arith in
    filter_after low high e.id es above_low ∙ filter_behind n page e (filter-IsAscending _ es a) h
