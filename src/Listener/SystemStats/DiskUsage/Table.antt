-- ===== src/Listener/SystemStats/DiskUsage/Table.antt =====
-- The dict of rows that packages/log-sump-listener/src/log_sump_listener/system_stats.py makes of what
-- it reads from `docker system df`.
use log_sump.Base.{
  ◌≡◌, refl, ◌∙◌, inl, inr, Bool, true, Option, none, some, [], ◌∷◌, ◌++◌, foldl, if◌then◌else◌,
  Bool-cases, arith,
}
use log_sump.Common.Schema.{Json}
use log_sump.Listener.SystemStats.DiskUsage.{Usage, Rows, set_row}

-- The keys of a dict: equality need not be reflexive, which it is not for nan.
pub record IsKeyEquality (same_key : Json → Json → Bool) : Type 0 where
  pub symmetric : (a b : Json) → same_key a b ≡ same_key b a
  pub transitive : (a b c : Json) → same_key a b ≡ true → same_key a c ≡ same_key b c

module _ (same_key : Json → Json → Bool) where
  -- rows.get(key)
  abbrev pub row_at : Json → Rows → Option Usage
  row_at k [] = none
  row_at k ((j, w) ∷ rows) = if same_key k j then some w else row_at k rows

  -- The last usage of a type among those that were read.
  abbrev pub last_of : Json → Rows → Option Usage
  last_of k [] = none
  last_of k ((j, w) ∷ read) = elim (last_of k read) [
    | none ↦ if same_key k j then some w else none
    | some v ↦ some v
  ]

  -- No type has two rows.
  abbrev pub Distinct : Rows → Type 0
  Distinct [] = Unit
  Distinct ((j, w) ∷ rows) = (row_at j rows ≡ none) × Distinct rows

  abbrev pub IsTable : Rows → Rows → Type 0
  IsTable read rows = ((k : Json) → row_at k rows ≡ last_of k read) × Distinct rows

  -- rows[key] = usage for each
  abbrev pub set_rows : Rows → Rows → Rows
  set_rows = foldl (λ rows e. set_row same_key e.0 e.1 rows)

  pub set_rows-append :
      (first further rows : Rows)
      → set_rows rows (first ++ further) ≡ set_rows (set_rows rows first) further
  set_rows-append [] further rows = refl
  set_rows-append ((k, v) ∷ first) further rows =
      set_rows-append first further (set_row same_key k v rows)

  -- A dict that has a row keeps one.
  pub set_rows-cons :
      (read : Rows) (r : Json × Usage) (rows : Rows)
      → (s : Json × Usage) × (rest : Rows) × (set_rows (r ∷ rows) read ≡ s ∷ rest)
  unfolding set_row
  set_rows-cons [] r rows = (r, rows, refl)
  set_rows-cons ((k, v) ∷ read) (j, w) rows = elim (Bool-cases (same_key k j)) [
    | inl e ↦ rw e (set_rows-cons read (j, v) rows)
    | inr e ↦ rw e (set_rows-cons read (j, w) (set_row same_key k v rows))
  ]

  module _ (laws : IsKeyEquality same_key) where
    row_at-set_row :
        (k x : Json) (v : Usage) (rows : Rows)
        → row_at x (set_row same_key k v rows) ≡ (if same_key x k then some v else row_at x rows)
    unfolding set_row
    row_at-set_row k x v [] = refl
    row_at-set_row k x v ((j, w) ∷ rows) = ground (
      arith,
      row_at-set_row k x v rows,
      laws.symmetric x k,
      laws.transitive k x j,
      laws.transitive k j x,
      laws.symmetric x j,
    )

    set_row-Distinct :
        (k : Json) (v : Usage) (rows : Rows) → Distinct rows → Distinct (set_row same_key k v rows)
    unfolding set_row
    set_row-Distinct k v [] h = (refl, tt)
    set_row-Distinct k v ((j, w) ∷ rows) (h, hs) = elim (Bool-cases (same_key k j)) [
      | inl e ↦ rw e (h, hs)
      | inr e ↦ rw e (
        row_at-set_row k j v rows ∙ ground (arith, e, h, laws.symmetric j k),
        set_row-Distinct k v rows hs,
      )
    ]

    set_rows-at :
        (read rows : Rows) (x : Json)
        → row_at x (set_rows rows read)
          ≡ (elim (last_of x read) [ none ↦ row_at x rows | some v ↦ some v ])
    set_rows-at [] rows x = refl
    set_rows-at ((k, v) ∷ read) rows x =
        set_rows-at read (set_row same_key k v rows) x ∙ ground (arith, row_at-set_row k x v rows)

    set_rows-Distinct : (read rows : Rows) → Distinct rows → Distinct (set_rows rows read)
    set_rows-Distinct [] rows h = h
    set_rows-Distinct ((k, v) ∷ read) rows h =
        set_rows-Distinct read (set_row same_key k v rows) (set_row-Distinct k v rows h)

    pub set_rows-IsTable : (read : Rows) → IsTable read (set_rows [] read)
    set_rows-IsTable read =
        (λ k. set_rows-at read [] k ∙ ground arith, set_rows-Distinct read [] tt)
