-- ===== src/Server/App/Granted.antt =====
-- Who may use the app of packages/log-sump-server/src/log_sump_server/app.py.
use log_sump.Base.{
  ◌≡◌, refl, true, false, Bool, Option, none, some, List, [], ◌∷◌, map, filterb, subst, Bool-cases,
  inl, inr, arith,
}
use log_sump.Base.Text.{Text, contains}
use log_sump.Base.Errors.{ok, err, http_error}
use log_sump.Base.Exec.{pure, bind-eq-ok}
use log_sump.Common.Redis.{Redis}
use log_sump.Common.Config.{Settings}
use log_sump.Common.RedisKeys.{auth_key}
use log_sump.Common.Auth.{permitted_daemons}
use log_sump.Server.Deps.{get_permitted_daemons, require_valid_api_key}
use log_sump.Server.Catalog.{entry_of, catalog_request}
use log_sump.Server.Catalog.Permitted.{
  IsGranted, get_permitted_daemons-eq-ok, catalog_request-IsGranted,
}
use log_sump.Server.Records.{RecordsPage, RecordsQuery, get_records}
use log_sump.Server.Records.Timeline.{get_records-forbidden}
use log_sump.Server.Admin.{Reply, RedisCommandRequest, Execute, run_redis_command}
use log_sump.Server.App.{
  Request, live, ready, catalog, records, command, Response, entries, page, result, Context,
  records_request, serve,
}

-- The key that a request comes with, unless it is one for the health of the server.
abbrev pub needs_key : Request → Bool
needs_key live = false
needs_key ready = false
needs_key _ = true

abbrev pub api_key_of : Request → Option Text
api_key_of live = none
api_key_of ready = none
api_key_of (catalog api_key) = api_key
api_key_of (records api_key query) = api_key
api_key_of (command api_key body) = api_key

-- What an answer may show to a key that these daemons are granted to: the catalog, exactly the
-- configured daemons among them; records, those of one of them.
abbrev pub Shows : Settings → List Text → Request → Response → Type 0
Shows settings ids (catalog api_key) (entries found) =
    found ≡ map entry_of (filterb (λ d. contains ids d.id) settings.daemons)
Shows settings ids (catalog api_key) _ = ⊥
Shows settings ids (records api_key query) r = contains ids query.docker_host ≡ true
Shows settings ids _ r = Unit

module _ (R : Redis) (c : Context)
    (execute_command : Execute R c.codec c.sha256_hex c.unicode c.lenient) where
  -- Redis grants the request's key some daemons, and the answer shows no others.
  abbrev pub Permits : Request → R.State → Response → Type 0
  Permits q s r =
      (key : Text) × (ids : List Text) × (api_key_of q ≡ some key)
      × IsGranted R c.codec c.sha256_hex s key ids
      × Shows c.settings ids q r

  key_permitted :
      (q : Request) (s : R.State) (r : Response) (ids : List Text)
      → (get_permitted_daemons R c.codec c.sha256_hex (api_key_of q) s).0 ≡ ok ids
      → Shows c.settings ids q r
      → Permits q s r
  key_permitted q s r ids h shows =
      let (key, is_key, granted) =
        get_permitted_daemons-eq-ok R c.codec c.sha256_hex (api_key_of q) s ids h in
      (key, ids, is_key, granted, shows)

  daemon_access :
      (query : RecordsQuery) (ids : List Text) (s : R.State) (found : RecordsPage)
      → (get_records c.adapter c.codec c.unicode R c.epoch_ms c.settings c.now query ids s).0
        ≡ ok found
      → contains ids query.docker_host ≡ true
  daemon_access query ids s found h = elim (Bool-cases (contains ids query.docker_host)) [
    | inl covered ↦ covered
    | inr not_covered ↦ absurd (
        ground (
          arith,
          h,
          get_records-forbidden c.adapter c.codec c.unicode R c.epoch_ms c.settings c.now query ids
              s not_covered,
        ))
  ]

  records-Permits :
      (api_key : Option Text) (query : RecordsQuery) (s : R.State) (found : RecordsPage)
      → (records_request R c api_key query s).0 ≡ ok found
      → Permits (records api_key query) s (page found)
  unfolding records_request
  records-Permits api_key query s found h =
      let (ids, p, q, e) =
        bind-eq-ok (get_permitted_daemons R c.codec c.sha256_hex api_key)
          (get_records c.adapter c.codec c.unicode R c.epoch_ms c.settings c.now query) s h in
      key_permitted (records api_key query) s (page found) ids p (daemon_access query ids _ found q)

  command-Permits :
      (api_key : Option Text) (body : RedisCommandRequest) (s : R.State) (reply : Reply)
      → (run_redis_command R c.codec c.sha256_hex c.unicode c.lenient execute_command api_key body
          s).0
        ≡ ok reply
      → Permits (command api_key body) s (result reply)
  unfolding run_redis_command require_valid_api_key
  command-Permits api_key body s reply h =
      let (done, p, q, e) =
        bind-eq-ok (require_valid_api_key R c.codec c.sha256_hex api_key) _ s h in
      let (ids, p', q', e') =
        bind-eq-ok (get_permitted_daemons R c.codec c.sha256_hex api_key) (λ _. pure tt) s p in
      key_permitted (command api_key body) s (result reply) ids p' tt

  -- A request other than those for the server's health that gets an answer, and not an error, has a
  -- key that Redis grants some daemons. If it asks for records, then of one of these daemons; and the
  -- catalog lists the configured daemons among these, in their order, and no others.
  pub serve-Permits :
      (q : Request) (s : R.State) (r : Response)
      → needs_key q ≡ true
      → (serve R c execute_command q s).0 ≡ ok r
      → Permits q s r
  unfolding serve
  serve-Permits live s r n h = absurd (ground (arith, n))
  serve-Permits ready s r n h = absurd (ground (arith, n))
  serve-Permits (catalog api_key) s r n h =
      let (found, p, q, e) = bind-eq-ok (catalog_request _ _ _ _ api_key) _ s h in
      let same : entries found ≡ r = cc in
      subst (Permits (catalog api_key) s) same
        (catalog_request-IsGranted R c.codec c.sha256_hex c.settings api_key s found p)
  serve-Permits (records api_key query) s r n h =
      let (found, p, q, e) = bind-eq-ok (records_request _ _ api_key query) _ s h in
      records-Permits api_key query s found p
  serve-Permits (command api_key body) s r n h =
      let (reply, p, q, e) =
        bind-eq-ok (run_redis_command _ _ _ _ _ execute_command api_key body) _ s h in
      command-Permits api_key body s reply p

  -- A missing, an empty or an unknown key, and the state behind the one question to Redis, which only
  -- an unknown key needs.
  abbrev pub Unknown : Option Text → R.State → R.State → Type 0
  Unknown none s t = t ≡ s
  Unknown (some []) s t = t ≡ s
  Unknown (some (d ∷ key)) s t = R.smembers (auth_key c.sha256_hex (d ∷ key)) s ≡ (ok [], t)

  get_permitted_daemons-Unknown :
      (key : Option Text) (s t : R.State)
      → Unknown key s t
      → get_permitted_daemons R c.codec c.sha256_hex key s ≡ (err (http_error 401), t)
  unfolding get_permitted_daemons permitted_daemons
  get_permitted_daemons-Unknown none s t u = rw u refl
  get_permitted_daemons-Unknown (some []) s t u = rw u refl
  get_permitted_daemons-Unknown (some (d ∷ key)) s t u = rw u refl

  -- A request other than those for the server's health with a missing, empty or unknown key gets 401,
  -- whatever it asks for; and Redis was asked for nothing, or for the members of the key's set only.
  pub serve-Unknown :
      (q : Request) (s t : R.State)
      → needs_key q ≡ true
      → Unknown (api_key_of q) s t
      → serve R c execute_command q s ≡ (err (http_error 401), t)
  unfolding serve catalog_request records_request run_redis_command require_valid_api_key
  serve-Unknown live s t n u = absurd (ground (arith, n))
  serve-Unknown ready s t n u = absurd (ground (arith, n))
  serve-Unknown (catalog api_key) s t n u = rw (get_permitted_daemons-Unknown api_key s t u) refl
  serve-Unknown (records api_key query) s t n u =
      rw (get_permitted_daemons-Unknown api_key s t u) refl
  serve-Unknown (command api_key body) s t n u =
      rw (get_permitted_daemons-Unknown api_key s t u) refl
