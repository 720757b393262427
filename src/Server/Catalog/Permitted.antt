-- ===== src/Server/Catalog/Permitted.antt =====
-- Who gets the catalog of packages/log-sump-server/src/log_sump_server/routers/catalog.py, and of
-- which daemons.
use log_sump.Base.{◌≡◌, refl, ap, ◌∙◌, true, Option, none, some, List, [], ◌∷◌, map, filterb, arith}
use log_sump.Base.Text.{Text, truthy, contains, Str}
use log_sump.Base.Errors.{ok, Result-cases}
use log_sump.Base.Exec.{pure, lift, bind-eq-ok}
use log_sump.Common.Config.{Settings}
use log_sump.Common.Redis.{Codec, Redis}
use log_sump.Common.RedisKeys.{auth_key}
use log_sump.Common.Auth.{decode_members, permitted_of, permitted_daemons}
use log_sump.Server.Deps.{known_key, get_permitted_daemons}
use log_sump.Server.Catalog.{CatalogEntry, entry_of, get_catalog, catalog_request}

module _ (R : Redis) (codec : Codec) (sha256_hex : Text → Text) where
  -- In a state, Redis answers for a key that is not empty with the members of a set that is not
  -- empty, and they decode to these daemons.
  pub record IsGranted (s : R.State) (key : Text) (ids : List Text) : Type 0 where
    pub given : truthy key ≡ true
    pub member : Str
    pub members : List Str
    pub answered : (R.smembers (auth_key sha256_hex key) s).0 ≡ ok (member ∷ members)
    pub decoded : decode_members codec (member ∷ members) ≡ ok ids

  answered_of :
      (s : R.State) (key : Text) (members : List Str) (ids : List Text)
      → truthy key ≡ true
      → (R.smembers (auth_key sha256_hex key) s).0 ≡ ok members
      → permitted_of codec members ≡ ok (some ids)
      → IsGranted s key ids
  answered_of s key [] ids t a p = absurd (ground (arith, p))
  answered_of s key (m ∷ members) ids t a p = record {
    given = t;
    member = m;
    members = members;
    answered = a;
    decoded = ground (arith, p, Result-cases (decode_members codec (m ∷ members)));
  }

  known_key-eq-ok :
      (o : Option (List Text)) (s : R.State) (ids : List Text)
      → (known_key R codec sha256_hex o s).0 ≡ ok ids
      → o ≡ some ids
  known_key-eq-ok none s ids h = absurd (ground (arith, h))
  known_key-eq-ok (some ids') s ids h = ground (arith, h)

  permitted_daemons-eq-ok :
      (key : Text) (s : R.State) (ids : List Text)
      → truthy key ≡ true
      → (permitted_daemons R codec sha256_hex key s).0 ≡ ok (some ids)
      → IsGranted s key ids
  unfolding permitted_daemons
  permitted_daemons-eq-ok [] s ids t h = absurd (ground (arith, t))
  permitted_daemons-eq-ok (c ∷ key) s ids t h =
      let (members, p, q, e) =
        bind-eq-ok (R.smembers (auth_key sha256_hex (c ∷ key)))
          (λ members. lift (permitted_of codec members)) s h in
      answered_of s (c ∷ key) members ids t p q

  -- Only a key that Redis grants some daemons passes, and it gives these.
  pub get_permitted_daemons-eq-ok :
      (api_key : Option Text) (s : R.State) (ids : List Text)
      → (get_permitted_daemons R codec sha256_hex api_key s).0 ≡ ok ids
      → (key : Text) × (api_key ≡ some key) × IsGranted s key ids
  unfolding get_permitted_daemons
  get_permitted_daemons-eq-ok none s ids h = absurd (ground (arith, h))
  get_permitted_daemons-eq-ok (some []) s ids h = absurd (ground (arith, h))
  get_permitted_daemons-eq-ok (some (c ∷ key)) s ids h =
      let (o, p, q, e) =
        bind-eq-ok (permitted_daemons R codec sha256_hex (c ∷ key)) (known_key R codec sha256_hex) s
          h in
      let known = known_key-eq-ok o _ ids q in
      (c ∷ key, refl, permitted_daemons-eq-ok (c ∷ key) s ids refl (p ∙ ap (λ x. ok x) known))

  -- A catalog is returned only for a request with a key that Redis grants some daemons, and it lists
  -- the configured daemons that are among these, in their order, and no others.
  pub catalog_request-IsGranted :
      (settings : Settings) (api_key : Option Text) (s : R.State) (entries : List CatalogEntry)
      → (catalog_request R codec sha256_hex settings api_key s).0 ≡ ok entries
      → (key : Text) × (ids : List Text) × (api_key ≡ some key)
        × IsGranted s key ids
        × (entries ≡ map entry_of (filterb (λ d. contains ids d.id) settings.daemons))
  unfolding catalog_request get_catalog
  catalog_request-IsGranted settings api_key s entries h =
      let (ids, p, q, e) =
        bind-eq-ok (get_permitted_daemons R codec sha256_hex api_key)
          (λ permitted. pure (get_catalog permitted settings)) s h in
      let (key, is_key, granted) = get_permitted_daemons-eq-ok api_key s ids p in
      (key, ids, is_key, granted, ground (arith, q))
