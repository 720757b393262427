-- ===== src/Server/App/Confined.antt =====
-- Which streams the app of packages/log-sump-server/src/log_sump_server/app.py shows to a key.
use mathlib.Core.Path.{fun_ext}
use log_sump.Base.{
  ap, ◌≡◌, refl, true, false, Bool, Option, some, List, Bool-cases, inl, inr, sym, ◌∙◌,
}
use log_sump.Base.Int.{ℤ}
use log_sump.Base.Text.{Text, contains}
use log_sump.Base.Errors.{Result-cases}
use log_sump.Base.Exec.{Exec, pure, bind_ok, bind_err, bind_alike}
use log_sump.Common.Schema.{DateTime, Kind, log, metric}
use log_sump.Common.Redis.{RawEntry, Redis}
use log_sump.Common.RedisKeys.{stream_key}
use log_sump.Server.Deps.{get_permitted_daemons}
use log_sump.Common.Auth.{permitted_daemons}
use log_sump.Server.Health.{readiness}
use log_sump.Server.Catalog.{catalog_request}
use log_sump.Server.Catalog.Permitted.{IsGranted, get_permitted_daemons-eq-ok}
use log_sump.Server.Queries.{fetch_kind_page}
use log_sump.Server.Records.{
  RecordsQuery, fetch_one, fetch_kinds, get_records, wants_log, wants_metric,
}
use log_sump.Server.Records.Timeline.{get_records-forbidden}
use log_sump.Server.Admin.{Execute}
use log_sump.Server.App.{
  Request, live, ready, catalog, records, command, page, Context, records_request, serve,
}
use log_sump.Server.App.Granted.{api_key_of}

abbrev pub XRange : Redis → Type 0
XRange R = (key low high : Text) (count : ℤ) → Exec R.State (Option (List RawEntry))

-- A server that answers all but XRANGE as another does.
abbrev pub with_xrange : (R : Redis) → XRange R → Redis
with_xrange R other = record R { xrange = other }

-- Two answers to XRANGE agree on the streams of a daemon.
abbrev pub Agree : (R : Redis) → XRange R → Text → Type 0
Agree R other h =
    (kind : Kind) (low high : Text) (count : ℤ) (t : R.State)
    → other (stream_key h kind) low high count t ≡ R.xrange (stream_key h kind) low high count t

module _ (R : Redis) (c : Context) (other : XRange R) where
  abbrev R' : Redis
  R' = with_xrange R other

  fetch_kind_page-Agree :
      (h : Text)
      → Agree R other h
      → (kind : Kind) (start end : DateTime) (cursor : Option Text) (limit : ℤ)
      → fetch_kind_page c.adapter c.codec R' c.epoch_ms h kind start end cursor limit
        ≡ fetch_kind_page c.adapter c.codec R c.epoch_ms h kind start end cursor limit
  unfolding fetch_kind_page
  fetch_kind_page-Agree h agree kind start end cursor limit =
      fun_ext (λ s. rw (agree kind _ _ limit s) refl)

  fetch_one-Agree :
      (query : RecordsQuery)
      → Agree R other query.docker_host
      → (kind : Kind) (cursor : Option Text) (wanted : Bool)
      → fetch_one c.adapter c.codec c.unicode R' c.epoch_ms c.settings c.now query kind cursor
          wanted
        ≡ fetch_one c.adapter c.codec c.unicode R c.epoch_ms c.settings c.now query kind cursor
            wanted
  fetch_one-Agree query agree kind cursor false = refl
  fetch_one-Agree query agree kind cursor true =
      simp (fetch_kind_page-Agree query.docker_host agree)

  get_records-Agree :
      (query : RecordsQuery) (ids : List Text)
      → Agree R other query.docker_host
      → get_records c.adapter c.codec c.unicode R' c.epoch_ms c.settings c.now query ids
        ≡ get_records c.adapter c.codec c.unicode R c.epoch_ms c.settings c.now query ids
  unfolding get_records fetch_kinds
  get_records-Agree query ids agree =
      rw
        (
          fetch_one-Agree query agree log query.log_cursor (wants_log query.kind),
          fetch_one-Agree query agree metric query.metric_cursor (wants_metric query.kind),
        )
        refl

  -- What a key is granted decides whether its request for records reaches the streams.
  permitted-Agree :
      (query : RecordsQuery) (ids : List Text) (s : R.State)
      → (contains ids query.docker_host ≡ true → Agree R other query.docker_host)
      → get_records c.adapter c.codec c.unicode R' c.epoch_ms c.settings c.now query ids s
        ≡ get_records c.adapter c.codec c.unicode R c.epoch_ms c.settings c.now query ids s
  permitted-Agree query ids s agree = elim (Bool-cases (contains ids query.docker_host)) [
    | inl yes_it_is ↦ ap (λ f. f s) (get_records-Agree query ids (agree yes_it_is))
    | inr no_it_is_not ↦
        get_records-forbidden c.adapter c.codec c.unicode R' c.epoch_ms c.settings c.now query ids s
          no_it_is_not
        ∙ sym (
            get_records-forbidden c.adapter c.codec c.unicode R c.epoch_ms c.settings c.now query
              ids s no_it_is_not)
  ]

  -- The daemons that a request's key is granted, in a state.
  abbrev pub Granted : Option Text → R.State → Text → Type 0
  Granted api_key s h =
      (key : Text) × (ids : List Text) × (api_key ≡ some key)
      × IsGranted R c.codec c.sha256_hex s key ids
      × (contains ids h ≡ true)

  records-Agree :
      (api_key : Option Text) (query : RecordsQuery) (s : R.State)
      → ((h : Text) → Granted api_key s h → Agree R other h)
      → records_request R' c api_key query s ≡ records_request R c api_key query s
  unfolding records_request get_permitted_daemons permitted_daemons
  records-Agree api_key query s agree =
      let asked = get_permitted_daemons R c.codec c.sha256_hex api_key in
      let ask = get_records c.adapter c.codec c.unicode R c.epoch_ms c.settings c.now query in
      let ask' = get_records c.adapter c.codec c.unicode R' c.epoch_ms c.settings c.now query in
      elim (Result-cases (asked s).0) [
        | inr (e, refused) ↦ bind_err asked ask' s refused ∙ sym (bind_err asked ask s refused)
        | inl (ids, granted) ↦
            let (key, is_key, found) =
              get_permitted_daemons-eq-ok R c.codec c.sha256_hex api_key s ids granted in
            bind_ok asked ask' s granted
            ∙ permitted-Agree query ids _
                (λ covered. agree query.docker_host (key, ids, is_key, found, covered))
            ∙ sym (bind_ok asked ask s granted)
      ]

  -- The requests with GET.
  abbrev pub is_get : Request → Bool
  is_get (command api_key body) = false
  is_get _ = true

  -- Two Redis servers that differ only in what XRANGE answers for streams of daemons which the
  -- request's key is not granted cannot be told apart by any GET request: it has the same answer and
  -- leaves the same state on both. So it shows nothing of the records of any other daemon.
  pub serve-confined :
      (run : Execute R c.codec c.sha256_hex c.unicode c.lenient) (q : Request) (s : R.State)
      → is_get q ≡ true
      → ((h : Text) → Granted (api_key_of q) s h → Agree R other h)
      → serve R' c run q s ≡ serve R c run q s
  unfolding serve catalog_request get_permitted_daemons permitted_daemons readiness
  serve-confined run live s g agree = refl
  serve-confined run ready s g agree = refl
  serve-confined run (catalog api_key) s g agree = refl
  serve-confined run (records api_key query) s g agree =
      bind_alike (records_request R' c api_key query) (records_request R c api_key query)
        (λ found. pure (page found)) (λ found. pure (page found)) s
        (records-Agree api_key query s agree) (λ found t. refl)
  serve-confined run (command api_key body) s g agree = absurd (cc)
