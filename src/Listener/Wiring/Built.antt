-- ===== src/Listener/Wiring/Built.antt =====
-- The dicts by daemon that packages/log-sump-listener/src/log_sump_listener/app.py builds.
use mathlib.Core.Option.{some-injective}
use log_sump.Base.{
  subst, ◌≡◌, refl, sym, ap, ◌∙◌, inl, inr, Bool, true, false, ◌||◌, Bool-cases, Option-cases, none,
  some, List, [], ◌∷◌, map, All, if◌then◌else◌, arith,
}
use log_sump.Base.Text.{Text, ◌==◌, ==_refl, contains}
use log_sump.Base.Dict.{Dict, lookup, insert, lookup-insert}
use log_sump.Base.Errors.{Result, ok}
use log_sump.Common.Config.{DaemonConfig}
use log_sump.Listener.Wiring.{by_daemon}

abbrev pub ids_of : List DaemonConfig → List Text
ids_of daemons = map (λ d. d.id) daemons

abbrev pub has {ℓ} : {V : Type ℓ} → Text → Dict V → Bool
has k d = elim (lookup k d) [ none ↦ false | some v ↦ true ]

module _ {ℓ} {V : Type ℓ} (P : Text → V → Type 0) where
  abbrev pub AllSound : Dict V → Type ℓ
  AllSound d = (k : Text) (v : V) → lookup k d ≡ some v → P k v

  -- A value that does not raise, and is sound.
  abbrev pub Gives : (DaemonConfig → Result V) → DaemonConfig → Type ℓ
  Gives value daemon = (v : V) × (value daemon ≡ ok v) × P daemon.id v

  -- The dict of a comprehension: it is sound, and no daemon is missing.
  abbrev pub IsBuilt : List DaemonConfig → Dict V → Result (Dict V) → Type ℓ
  IsBuilt daemons d x =
      (e : Dict V) × (x ≡ ok e)
      × AllSound e
      × ((k : Text) → (has k d || contains (ids_of daemons) k) ≡ true → has k e ≡ true)

  insert-AllSound : (k : Text) (v : V) (d : Dict V) → P k v → AllSound d → AllSound (insert k v d)
  insert-AllSound k v d p s j w h =
      let e = sym (lookup-insert k j v d) ∙ h in
      elim (Bool-cases (j == k)) [
        | inl c ↦
            let jk : j ≡ k = ground (arith, c) in
            let vw : v ≡ w =
              some-injective _ _ (ap (λ b. if b then some v else lookup j d) (sym c) ∙ e) in
            subst (λ x. P x w) (sym jk) (subst (λ x. P k x) vw p)
        | inr c ↦ s j w (ap (λ b. if b then some v else lookup j d) (sym c) ∙ e)
      ]

  pub by_daemon-IsBuilt :
      (value : DaemonConfig → Result V) (daemons : List DaemonConfig) (d : Dict V)
      → All (Gives value) daemons
      → AllSound d
      → IsBuilt daemons d (by_daemon value daemons d)
  unfolding by_daemon
  by_daemon-IsBuilt value [] d g s = (d, refl, s, λ k h. ground (arith, h))
  by_daemon-IsBuilt value (daemon ∷ daemons) d ((v, e, p), g) s =
      let (built, eq, sound, full) =
        by_daemon-IsBuilt value daemons (insert daemon.id v d) g
          (insert-AllSound daemon.id v d p s) in
      rw e (built, eq, sound, λ k h. full k (ground (arith, h, lookup-insert daemon.id k v d)))

-- What holds of all identifiers holds of those of all daemons.
pub each_daemon :
    (Q : Text → Type 0) (daemons : List DaemonConfig)
    → ((k : Text) → contains (ids_of daemons) k ≡ true → Q k)
    → All (λ d. Q d.id) daemons
each_daemon Q [] h = tt
each_daemon Q (d ∷ daemons) h =
    (h d.id (ground (arith, ==_refl d.id)), each_daemon Q daemons (λ k c. h k (ground (arith, c))))

pub All-map {ℓ κ} :
    (P : DaemonConfig → Type ℓ) (Q : DaemonConfig → Type κ) (daemons : List DaemonConfig)
    → ((d : DaemonConfig) → P d → Q d)
    → All P daemons
    → All Q daemons
All-map P Q [] f h = tt
All-map P Q (d ∷ daemons) f (h, hs) = (f d h, All-map P Q daemons f hs)

pub has-lookup {ℓ} :
    {V : Type ℓ} (k : Text) (d : Dict V) → has k d ≡ true → (v : V) × (lookup k d ≡ some v)
has-lookup k d h = elim (Option-cases (lookup k d)) [
  | inl e ↦ absurd (ground (arith, h, e))
  | inr e ↦ e
]
