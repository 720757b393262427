-- ===== src/Base/Exec.antt =====
-- Coroutines that change a state and may raise: what was written before a raise stays written.
use mathlib.Core.Bool.{Bool}
use mathlib.Core.Path.{◌≡◌, refl, subst}
use mathlib.Core.Logic.{inl, inr}
use native.Mathlib.Omega.{arith}
use log_sump.Base.Errors.{Error, Result, ok, err, Result-cases}
use log_sump.Base.Tests.{if◌then◌else◌}

abbrev pub Exec {ℓ} : Type ℓ → Type ℓ → Type ℓ
Exec S A = S → Result A × S

module _ {ℓ} {S A : Type ℓ} where
  abbrev pub pure : A → Exec S A
  pure a s = (ok a, s)

  abbrev pub raise : Error → Exec S A
  raise e s = (err e, s)

  abbrev pub lift : Result A → Exec S A
  lift r s = (r, s)

  abbrev handle : (Error → Bool) → (Error → Exec S A) → Result A → Exec S A
  handle caught h (ok a) s = (ok a, s)
  handle caught h (err e) s = (if caught e then h e else raise e) s

  -- try: m except caught as e: h(e)
  abbrev pub try_except : Exec S A → (Error → Bool) → (Error → Exec S A) → Exec S A
  try_except m caught h s = let (r, s') = m s in handle caught h r s'

module _ {ℓ} {S A B : Type ℓ} where
  abbrev continue : Result A → (A → Exec S B) → Exec S B
  continue (ok a) f s = f a s
  continue (err e) f s = (err e, s)

  infixl 5 ◌>>=◌ ◌>>◌
  abbrev pub ◌>>=◌ : Exec S A → (A → Exec S B) → Exec S B
  ◌>>=◌ m f s = let (r, s') = m s in continue r f s'

  abbrev pub ◌>>◌ : Exec S A → Exec S B → Exec S B
  m >> n = m >>= λ _. n

  -- A call that returned hands its value and its state on; one that raised ends the block.
  pub bind_ok :
      (m : Exec S A) (f : A → Exec S B) (s : S) {a : A} → (m s).0 ≡ ok a → (m >>= f) s ≡ f a (m s).1
  bind_ok m f s h = rw h

  pub bind_err :
      (m : Exec S A) (f : A → Exec S B) (s : S) {e : Error}
      → (m s).0 ≡ err e
      → (m >>= f) s ≡ (err e, (m s).1)
  bind_err m f s h = rw h

  continue-lift : (r : Result A) (g : A → Result B) (s : S) → (continue r (λ a. lift (g a)) s).1 ≡ s
  continue-lift (ok a) g s = refl
  continue-lift (err e) g s = refl

  -- A pure end of a block changes no state.
  pub state_lift :
      (m : Exec S A) (g : A → Result B) (s : S) → ((m >>= λ a. lift (g a)) s).1 ≡ (m s).1
  state_lift m g s = continue-lift (m s).0 g (m s).1

  -- Inversion of a block that returned.
  pub bind-eq-ok :
      (m : Exec S A) (f : A → Exec S B) (s : S) {b : B}
      → ((m >>= f) s).0 ≡ ok b
      → (a : A) × ((m s).0 ≡ ok a) × ((f a (m s).1).0 ≡ ok b) × ((m >>= f) s ≡ f a (m s).1)
  bind-eq-ok m f s {b} h = elim (Result-cases (m s).0) [
    | inl (a, p) ↦ (a, p, subst (λ x. (continue x f (m s).1).0 ≡ ok b) p h, bind_ok m f s p)
    | inr (e, p) ↦ absurd (ground arith)
  ]

  continue_same :
      (r : Result A) (f g : A → Exec S B) (s : S)
      → ((a : A) (t : S) → f a t ≡ g a t)
      → continue r f s ≡ continue r g s
  continue_same (ok a) f g s h = h a s
  continue_same (err e) f g s h = refl

  -- Blocks that end alike are alike.
  pub bind_same :
      (m : Exec S A) (f g : A → Exec S B) (s : S)
      → ((a : A) (t : S) → f a t ≡ g a t)
      → (m >>= f) s ≡ (m >>= g) s
  bind_same m f g s h = continue_same (m s).0 f g (m s).1 h

  pub bind_alike :
      (m n : Exec S A) (f g : A → Exec S B) (s : S)
      → m s ≡ n s
      → ((a : A) (t : S) → f a t ≡ g a t)
      → (m >>= f) s ≡ (n >>= g) s
  bind_alike m n f g s e h = rw e (continue_same (n s).0 f g (n s).1 h)
