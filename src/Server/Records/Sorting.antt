-- ===== src/Server/Records/Sorting.antt =====
-- What a sort by time of packages/log-sump-server/src/log_sump_server/routers/records.py brings, where
-- all times compare.
use mathlib.Core.List.{Perm}
use mathlib.Core.List.Perm
use log_sump.Base.{
  ℕ, ◌≤◌, ◌≡◌, refl, ◌∙◌, Bool, List, [], ◌∷◌, leb, nat_eq, filterb, All, All-filter, arith,
  if◌then◌else◌, Bool-cases, inl, inr,
}
use log_sump.Common.Schema.{Record, ts_of}

abbrev pub micros_of : Record → ℕ
micros_of r = (ts_of r).micros

unfoldable pub insert_in_order : Record → List Record → List Record
insert_in_order r [] = r ∷ []
insert_in_order r (x ∷ xs) =
    if leb (micros_of r) (micros_of x) then r ∷ x ∷ xs else x ∷ insert_in_order r xs

unfoldable pub sort_in_order : List Record → List Record
sort_in_order [] = []
sort_in_order (r ∷ rs) = insert_in_order r (sort_in_order rs)

abbrev pub IsSorted : List Record → Type 0
IsSorted [] = Unit
IsSorted (r ∷ rs) = All (λ x. micros_of r ≤ micros_of x) rs × IsSorted rs

All-insert :
    (n : ℕ) (r : Record) (xs : List Record)
    → n ≤ micros_of r
    → All (λ x. n ≤ micros_of x) xs
    → All (λ x. n ≤ micros_of x) (insert_in_order r xs)
unfolding insert_in_order
All-insert n r [] h a = (h, tt)
All-insert n r (x ∷ xs) h a = elim (Bool-cases (leb (micros_of r) (micros_of x))) [
  | inl first ↦ rw first (h, a)
  | inr behind ↦ rw behind (a.0, All-insert n r xs h a.1)
]

All-le_trans :
    (m n : ℕ) (xs : List Record)
    → m ≤ n
    → All (λ x. n ≤ micros_of x) xs
    → All (λ x. m ≤ micros_of x) xs
All-le_trans m n [] h a = tt
All-le_trans m n (x ∷ xs) h a = (omega arith, All-le_trans m n xs h a.1)

insert-IsSorted : (r : Record) (xs : List Record) → IsSorted xs → IsSorted (insert_in_order r xs)
unfolding insert_in_order
insert-IsSorted r [] h = (tt, tt)
insert-IsSorted r (x ∷ xs) h = elim (Bool-cases (leb (micros_of r) (micros_of x))) [
  | inl first ↦
      let le : micros_of r ≤ micros_of x = ground arith in
      rw first ((le, All-le_trans _ _ xs le h.0), h)
  | inr behind ↦
      let le : micros_of x ≤ micros_of r = ground arith in
      rw behind (All-insert (micros_of x) r xs le h.0, insert-IsSorted r xs h.1)
]

pub sort-IsSorted : (rs : List Record) → IsSorted (sort_in_order rs)
unfolding sort_in_order
sort-IsSorted [] = tt
sort-IsSorted (r ∷ rs) = insert-IsSorted r (sort_in_order rs) (sort-IsSorted rs)

insert-perm : (r : Record) (xs : List Record) → Perm (insert_in_order r xs) (r ∷ xs)
unfolding insert_in_order
insert-perm r [] = Perm.rfl
insert-perm r (x ∷ xs) = elim (Bool-cases (leb (micros_of r) (micros_of x))) [
  | inl first ↦ rw first Perm.rfl
  | inr behind ↦ rw behind (Perm.trans (Perm.cons x (insert-perm r xs)) (Perm.swap r x xs))
]

pub sort-perm : (rs : List Record) → Perm (sort_in_order rs) rs
unfolding sort_in_order
sort-perm [] = Perm.rfl
sort-perm (r ∷ rs) = Perm.trans (insert-perm r (sort_in_order rs)) (Perm.cons r (sort-perm rs))

insert_stable :
    (t : ℕ) (r : Record) (xs : List Record)
    → filterb (λ x. nat_eq (micros_of x) t) (insert_in_order r xs)
      ≡ filterb (λ x. nat_eq (micros_of x) t) (r ∷ xs)
unfolding insert_in_order
insert_stable t r [] = refl
insert_stable t r (x ∷ xs) = ground (arith, insert_stable t r xs)

-- Records of one time keep their order.
pub sort_stable :
    (t : ℕ) (rs : List Record)
    → filterb (λ x. nat_eq (micros_of x) t) (sort_in_order rs)
      ≡ filterb (λ x. nat_eq (micros_of x) t) rs
unfolding sort_in_order
sort_stable t [] = refl
sort_stable t (r ∷ rs) = insert_stable t r (sort_in_order rs) ∙ ground (arith, sort_stable t rs)

pub filter-IsSorted : (p : Record → Bool) (rs : List Record) → IsSorted rs → IsSorted (filterb p rs)
filter-IsSorted p [] h = tt
filter-IsSorted p (r ∷ rs) h = elim (Bool-cases (p r)) [
  | inl e ↦ rw e (All-filter _ p rs h.0, filter-IsSorted p rs h.1)
  | inr e ↦ rw e (filter-IsSorted p rs h.1)
]
