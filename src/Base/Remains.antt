-- ===== src/Base/Remains.antt =====
-- What is left of a list when some of its elements are lost.
use mathlib.Core.Path.{◌≡◌}
use mathlib.Core.Logic.{inl, inr}
use mathlib.Core.Bool.{Bool, false}
use mathlib.Core.List.{List, [], ◌∷◌, ◌++◌}
use log_sump.Base.Tests.{Bool-cases}
use log_sump.Base.Lists.{filterb}

-- The second list is the first without some elements that were to be lost.
pub data Remains {ℓ κ} {A : Type ℓ} (Lost : A → Type κ) : List A → List A → Type (ℓ ⊔ κ) where
  none_left : Remains Lost [] []
  stays : (x : A) (xs ys : List A) → Remains Lost xs ys → Remains Lost (x ∷ xs) (x ∷ ys)
  goes : (x : A) (xs ys : List A) → Lost x → Remains Lost xs ys → Remains Lost (x ∷ xs) ys

-- Some of the elements of a list, in their order.
abbrev pub Some {ℓ} : {A : Type ℓ} → List A → List A → Type ℓ
Some = Remains (λ x. Unit {0})

module _ {ℓ κ} {A : Type ℓ} (Lost : A → Type κ) where
  pub Remains-self : (xs : List A) → Remains Lost xs xs
  Remains-self [] = none_left
  Remains-self (x ∷ xs) = stays x xs xs (Remains-self xs)

  pub Remains-none : ((x : A) → Lost x) → (xs : List A) → Remains Lost xs []
  Remains-none f [] = none_left
  Remains-none f (x ∷ xs) = goes x xs [] (f x) (Remains-none f xs)

  pub Remains-append : (xs ys zs : List A) → Remains Lost xs ys → Remains Lost (xs ++ zs) (ys ++ zs)
  Remains-append _ _ zs none_left = Remains-self zs
  Remains-append _ _ zs (stays x xs ys h) =
      stays x (xs ++ zs) (ys ++ zs) (Remains-append xs ys zs h)
  Remains-append _ _ zs (goes x xs ys l h) =
      goes x (xs ++ zs) (ys ++ zs) l (Remains-append xs ys zs h)

  pub Remains-filter :
      (p : A → Bool) (xs ys : List A)
      → ((x : A) → p x ≡ false → Lost x)
      → Remains Lost xs ys
      → Remains Lost xs (filterb p ys)
  Remains-filter p _ _ f none_left = none_left
  Remains-filter p _ _ f (stays x xs ys h) = elim (Bool-cases (p x)) [
    | inl t ↦ rw t (stays x xs (filterb p ys) (Remains-filter p xs ys f h))
    | inr t ↦ rw t (goes x xs (filterb p ys) (f x t) (Remains-filter p xs ys f h))
  ]
  Remains-filter p _ _ f (goes x xs ys l h) =
      goes x xs (filterb p ys) l (Remains-filter p xs ys f h)

pub Remains-weaken {ℓ κ μ} :
    {A : Type ℓ} (P : A → Type κ) (Q : A → Type μ) (xs ys : List A)
    → ((x : A) → P x → Q x)
    → Remains P xs ys
    → Remains Q xs ys
Remains-weaken P Q _ _ f none_left = none_left
Remains-weaken P Q _ _ f (stays x xs ys h) = stays x xs ys (Remains-weaken P Q xs ys f h)
Remains-weaken P Q _ _ f (goes x xs ys l h) = goes x xs ys (f x l) (Remains-weaken P Q xs ys f h)
