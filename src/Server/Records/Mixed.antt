-- ===== src/Server/Records/Mixed.antt =====
-- When the sort of packages/log-sump-server/src/log_sump_server/routers/records.py raises.
use log_sump.Base.{
  ◌≡◌, ◌↔◌, ◌⊎◌, refl, ap, ◌∙◌, inl, inr, Bool, true, false, not, ◌&&◌, ◌||◌, Bool-cases, List, [],
  ◌∷◌, if◌then◌else◌, arith,
}
use log_sump.Base.Errors.{ok, err, ◌>>=◌, type_error}
use log_sump.Common.Schema.{Record, ts_of}
use log_sump.Server.Records.Sort.{insert_by_ts, sorted_by_ts}
use log_sump.Server.Records.Sorting.{insert_in_order, sort_in_order}

-- Some of the records have a time zone, and some have none.
abbrev pub has_aware : List Record → Bool
has_aware [] = false
has_aware (r ∷ rs) = (ts_of r).aware || has_aware rs

abbrev pub has_naive : List Record → Bool
has_naive [] = false
has_naive (r ∷ rs) = not (ts_of r).aware || has_naive rs

abbrev pub is_mixed : List Record → Bool
is_mixed rs = has_aware rs && has_naive rs

has_aware-insert :
    (r : Record) (xs : List Record) → has_aware (insert_in_order r xs) ≡ has_aware (r ∷ xs)
unfolding insert_in_order
has_aware-insert r [] = refl
has_aware-insert r (x ∷ xs) = ground (arith, has_aware-insert r xs)

has_naive-insert :
    (r : Record) (xs : List Record) → has_naive (insert_in_order r xs) ≡ has_naive (r ∷ xs)
unfolding insert_in_order
has_naive-insert r [] = refl
has_naive-insert r (x ∷ xs) = ground (arith, has_naive-insert r xs)

sort-has_aware : (rs : List Record) → has_aware (sort_in_order rs) ≡ has_aware rs
unfolding sort_in_order
sort-has_aware [] = refl
sort-has_aware (r ∷ rs) =
    has_aware-insert r (sort_in_order rs) ∙ ap (λ b. (ts_of r).aware || b) (sort-has_aware rs)

sort-has_naive : (rs : List Record) → has_naive (sort_in_order rs) ≡ has_naive rs
unfolding sort_in_order
sort-has_naive [] = refl
sort-has_naive (r ∷ rs) =
    has_naive-insert r (sort_in_order rs) ∙ ap (λ b. not (ts_of r).aware || b) (sort-has_naive rs)

-- Into records that compare with each other.
insert_lem :
    (r : Record) (xs : List Record)
    → is_mixed xs ≡ false
    → insert_by_ts r xs ≡ (if is_mixed (r ∷ xs) then err type_error else ok (insert_in_order r xs))
unfolding insert_by_ts insert_in_order
insert_lem r [] h = ground arith
insert_lem r (x ∷ xs) h = ground (arith, h, insert_lem r xs)

-- The sort raises exactly where records with a time zone and records without one come together.
pub sorted_by_ts_lem :
    (rs : List Record)
    → sorted_by_ts rs ≡ (if is_mixed rs then err type_error else ok (sort_in_order rs))
unfolding sorted_by_ts sort_in_order
sorted_by_ts_lem [] = refl
sorted_by_ts_lem (r ∷ rs) =
    ap (λ x. x >>= λ sorted. insert_by_ts r sorted) (sorted_by_ts_lem rs)
    ∙ elim (Bool-cases (is_mixed rs)) [
      | inl m ↦ ground (arith, m)
      | inr m ↦
          ground (arith, m, sort-has_aware rs, sort-has_naive rs, insert_lem r (sort_in_order rs))
    ]

abbrev Any : (Record → Type 0) → List Record → Type 0
Any P [] = ⊥
Any P (r ∷ rs) = P r ⊎ Any P rs

-- A record has a time zone, and a record has none.
abbrev pub Mixes : List Record → Type 0
Mixes rs = Any (λ r. (ts_of r).aware ≡ true) rs × Any (λ r. (ts_of r).aware ≡ false) rs

has_aware_iff : (rs : List Record) → (has_aware rs ≡ true) ↔ Any (λ r. (ts_of r).aware ≡ true) rs
has_aware_iff [] = ((λ h. cc), λ h. absurd h)
has_aware_iff (r ∷ rs) = (
  (λ h. elim (Bool-cases (ts_of r).aware) [
    | inl e ↦ inl e
    | inr e ↦ inr ((has_aware_iff rs).0 (ground (arith, h, e)))
  ]),
  λ h. elim h [
    | inl e ↦ ground (arith, e)
    | inr later ↦ let l = (has_aware_iff rs).1 later in ground (arith, l)
  ],
)

has_naive_iff : (rs : List Record) → (has_naive rs ≡ true) ↔ Any (λ r. (ts_of r).aware ≡ false) rs
has_naive_iff [] = ((λ h. cc), λ h. absurd h)
has_naive_iff (r ∷ rs) = (
  (λ h. elim (Bool-cases (ts_of r).aware) [
    | inl e ↦ inr ((has_naive_iff rs).0 (ground (arith, h, e)))
    | inr e ↦ inl e
  ]),
  λ h. elim h [
    | inl e ↦ ground (arith, e)
    | inr later ↦ let l = (has_naive_iff rs).1 later in ground (arith, l)
  ],
)

pub is_mixed_iff : (rs : List Record) → (is_mixed rs ≡ true) ↔ Mixes rs
is_mixed_iff rs = (
  (λ h. ((has_aware_iff rs).0 (ground (arith, h)), (has_naive_iff rs).0 (ground (arith, h)))),
  λ h. let a = (has_aware_iff rs).1 h.0 in let n = (has_naive_iff rs).1 h.1 in ground (arith, a, n),
)
