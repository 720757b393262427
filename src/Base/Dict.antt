-- ===== src/Base/Dict.antt =====
-- Python's `dict` with text keys: the entries in insertion order.
use mathlib.Core.Path.{◌≡◌, refl}
use mathlib.Core.Option.{Option, none, some}
use mathlib.Core.List.{List, [], ◌∷◌, map}
use native.Mathlib.Omega.{arith}
use log_sump.Base.Tests.{if◌then◌else◌}
use log_sump.Base.Text.{Text, ◌==◌}

abbrev pub Dict {ℓ} : Type ℓ → Type ℓ
Dict V = List (Text × V)

module _ {ℓ} {V : Type ℓ} where
  -- d.get(k)
  unfoldable pub lookup : Text → Dict V → Option V
  lookup k [] = none
  lookup k ((j, v) ∷ d) = if k == j then some v else lookup k d

  -- d[k] = v keeps the place of a key that is there.
  unfoldable pub insert : Text → V → Dict V → Dict V
  insert k v [] = (k, v) ∷ []
  insert k v ((j, w) ∷ d) = if k == j then (j, v) ∷ d else (j, w) ∷ insert k v d

  -- d.pop(k, None)
  unfoldable pub erase : Text → Dict V → Dict V
  erase k [] = []
  erase k ((j, w) ∷ d) = if k == j then erase k d else (j, w) ∷ erase k d

  -- list(d)
  abbrev pub keys : Dict V → List Text
  keys d = map (λ e. e.0) d

  pub lookup-insert :
      (k j : Text) (v : V) (d : Dict V)
      → lookup j (insert k v d) ≡ (if j == k then some v else lookup j d)
  unfolding lookup insert
  lookup-insert k j v [] = refl
  lookup-insert k j v ((i, w) ∷ d) = ground (arith, lookup-insert k j v d)

  pub lookup-erase :
      (k j : Text) (d : Dict V) → lookup j (erase k d) ≡ (if j == k then none else lookup j d)
  unfolding lookup erase
  lookup-erase k j [] = ground arith
  lookup-erase k j ((i, w) ∷ d) = ground (arith, lookup-erase k j d)

  -- The second of two values for a key stays.
  pub insert-insert : (k : Text) (v w : V) (d : Dict V) → insert k w (insert k v d) ≡ insert k w d
  unfolding insert
  insert-insert k v w [] = ground arith
  insert-insert k v w ((i, x) ∷ d) = ground (arith, insert-insert k v w d)

pub lookup-map {ℓ κ} :
    {V : Type ℓ} {W : Type κ} (f : V → W) (k : Text) (d : Dict V)
    → lookup k (map (λ e. (e.0, f e.1)) d)
      ≡ (elim (lookup k d) [ none ↦ none | some v ↦ some (f v) ])
unfolding lookup
lookup-map f k [] = refl
lookup-map f k ((i, x) ∷ d) = ground (arith, lookup-map f k d)

pub lookup-nil {ℓ} : {V : Type ℓ} (k : Text) → lookup {V = V} k [] ≡ none
unfolding lookup
lookup-nil k = refl

pub ruleset dict_laws = (lookup-insert, lookup-erase, lookup-nil)
