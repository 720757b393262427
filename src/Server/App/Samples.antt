-- ===== src/Server/App/Samples.antt =====
-- Requests at a concrete store, rounds of the trimmer, and two lifespans.
use log_sump.Base.{
  ℕ, sym, subst, ◌≡◌, refl, if◌then◌else◌, true, false, some, none, List, [], ◌∷◌, ◌*◌, length,
  filterb, arith,
}
use log_sump.Base.Int.{ℤ, pos}
use log_sump.Base.Text.{Text, codes, bytes, contains, text_discrete, ascii_only, ◌==◌}
use log_sump.Base.Errors.{ok, err, http_error}
use log_sump.Base.Exec.{pure}
use log_sump.Base.Tasks.{running, cancelling, ended, returned, cancelled}
use log_sump.Common.Schema.{Kind, log, metric}
use log_sump.Common.Config.{DaemonConfig, ssh, Settings, default_settings}
use log_sump.Common.RedisKeys.{stream_key, auth_key}
use log_sump.Common.Redis.Memory.{Store, Stream, empty_store, memory, memory-IsRedis}
use log_sump.Common.Auth.{permitted_daemons, decode_members}
use log_sump.Server.Samples.{adapter, codec, epoch_ms, utc, entry_at}
use log_sump.Server.Deps.{get_permitted_daemons}
use log_sump.Server.Catalog.{entry_of, get_catalog, catalog_request}
use log_sump.Server.Records.{RecordsQuery, both}
use log_sump.Server.Admin.{Execute, nil}
use log_sump.Server.Ingest.Trimmer.{ms_per_day}
use log_sump.Server.App.{Request, catalog, records, Response, entries, Context, serve}
use log_sump.Server.App.Granted.{Permits, serve-Permits, serve-Unknown}
use log_sump.Server.App.Confined.{XRange, with_xrange, Agree, Granted, serve-confined}
use log_sump.Server.App.Background.{kept_at, trimmer_task, trimmer_task-enforces}
use log_sump.Server.App.Lifespan.{
  App, create_app, idle, enter, leave, close, starts, ends, stops, closes, Steps, here, next, over,
}
use log_sump.Server.App.Lifespan.Owned.{Keeps, Steps-Keeps}

abbrev daemon : Text → DaemonConfig
daemon id = record {
  id = id;
  host = codes "lan";
  user = codes "root";
  transport = ssh;
  ssh_options = [];
  enabled = false;
}

abbrev settings : Settings
settings = record default_settings { daemons = daemon (codes "h") ∷ daemon (codes "k") ∷ [] }

abbrev context : Context
context = record {
  adapter = adapter;
  codec = codec;
  unicode = ascii_only;
  sha256_hex = λ key. key;
  lenient = λ b. b;
  epoch_ms = epoch_ms;
  settings = settings;
  now = utc 9000;
}

-- Redis grants the key "secret" one daemon.
abbrev store : Store
store = record empty_store {
  sets = λ k. if k == auth_key (λ key. key) (codes "secret") then bytes (codes "k") ∷ [] else [];
}

abbrev execute : Execute memory codec (λ key. key) ascii_only (λ b. b)
execute c words = pure nil

abbrev request : Request
request = catalog (some (codes "secret"))

abbrev response : Response
response = entries (entry_of (daemon (codes "k")) ∷ [])

served : (serve memory context execute request store).0 ≡ ok response
unfolding serve catalog_request get_catalog get_permitted_daemons permitted_daemons decode_members
    text_discrete auth_key
served = refl

serve-Permits_example : Permits memory context execute request store response
serve-Permits_example = serve-Permits memory context execute request store response refl served

serve-Unknown_example :
    serve memory context execute (catalog (some (codes "guess"))) store
    ≡ (err (http_error 401), store)
unfolding auth_key text_discrete
serve-Unknown_example =
    serve-Unknown memory context execute (catalog (some (codes "guess"))) store store refl refl

abbrev query : RecordsQuery
query = record {
  docker_host = codes "h";
  kind = both;
  container_id = none;
  level = none;
  q = none;
  start = none;
  end_time = none;
  log_cursor = none;
  metric_cursor = none;
  limit = none;
}

-- A server that has no stream of logs of the daemon that the key is not granted.
abbrev other : XRange memory
other key low high count s =
    if key == codes "logsump:stream:h:log" then (ok none, s) else memory.xrange key low high count s

single : (h : Text) → contains (codes "k" ∷ []) h ≡ true → h ≡ codes "k"
single h e = ground (arith, e)

only_k : (h : Text) → Granted memory context other (some (codes "secret")) store h → h ≡ codes "k"
unfolding auth_key text_discrete decode_members
only_k h (key, ids, is_key, g, covered) =
    let e : codes "secret" ≡ key = cc is_key in
    let a : ok (bytes (codes "k") ∷ []) ≡ ok (g.member ∷ g.members) =
      subst (λ x. (memory.smembers (auth_key (λ key. key) x) store).0 ≡ ok (g.member ∷ g.members))
        (sym e) g.answered in
    let m : bytes (codes "k") ∷ [] ≡ g.member ∷ g.members = cc a in
    let d : ok (codes "k" ∷ []) ≡ ok ids =
      subst (λ x. decode_members codec x ≡ ok ids) (sym m) g.decoded in
    let i : codes "k" ∷ [] ≡ ids = cc d in
    single h (subst (λ x. contains x h ≡ true) (sym i) covered)

agrees_k :
    (kind : Kind) (low high : Text) (count : ℤ) (t : Store)
    → other (stream_key (codes "k") kind) low high count t
      ≡ memory.xrange (stream_key (codes "k") kind) low high count t
unfolding stream_key text_discrete
agrees_k log low high count t = refl
agrees_k metric low high count t = refl

agrees : (h : Text) → h ≡ codes "k" → Agree memory other h
agrees h e = subst (Agree memory other) (sym e) agrees_k

-- The key is not granted the daemon whose stream is missing.
serve-confined_example :
    serve (with_xrange memory other) context execute (records (some (codes "secret")) query) store
    ≡ serve memory context execute (records (some (codes "secret")) query) store
serve-confined_example =
    serve-confined memory context other execute (records (some (codes "secret")) query) store refl
      (λ h g. agrees h (only_k h g))

abbrev old_and_new : Stream
old_and_new = record {
  entries = entry_at 5 (codes "up") ∷ entry_at (8 * ms_per_day) (codes "Down") ∷ [];
  is_ascending = ((refl, tt), (tt, tt));
  is_bounded = omega arith;
}

abbrev filled : Store
filled = record empty_store { streams = λ k. old_and_new }

abbrev times : List ℕ
times = 9 * ms_per_day ∷ 10 * ms_per_day ∷ []

trimmer_task-enforces_example :
    ((trimmer_task memory settings times filled).0 ≡ ok tt)
    × (memory-IsRedis.stream
          (trimmer_task memory settings times filled).1
          (stream_key (codes "k") metric)
        ≡ filterb (kept_at times (pos 7)) old_and_new.entries)
unfolding memory-IsRedis text_discrete
trimmer_task-enforces_example =
    trimmer_task-enforces memory memory-IsRedis settings times filled (codes "k") metric
      (λ s m. (_, refl)) refl

abbrev a0 : App
a0 = create_app none

abbrev a1 : App
a1 = enter a0

-- The consumer ends by itself.
abbrev a2 : App
a2 = record a1 { tasks = ended returned ∷ running ∷ [] }

abbrev a3 : App
a3 = leave a2

abbrev a4 : App
a4 = record a3 { tasks = ended returned ∷ ended cancelled ∷ [] }

abbrev a5 : App
a5 = close a4

abbrev a6 : App
a6 = enter a5

lifespans : Steps a0 a6
unfolding create_app enter leave close
lifespans = next a0 a1 a6 (starts a0 refl) (
    next a1 a2 a6 (ends a1 [] (running ∷ []) running returned refl (λ h. h)) (
      next a2 a3 a6 (stops a2 refl) (
        next a3 a4 a6 (ends a3 (ended returned ∷ []) [] cancelling cancelled refl (λ h. h)) (
          next a4 a5 a6 (closes a4 refl (tt, (tt, tt)))
            (next a5 a6 a6 (starts a5 refl) (here a6))))))

Steps-Keeps_example : Keeps none (over a0 a6 lifespans) a6 × (a6.point ≡ idle → length a6.tasks ≡ 0)
Steps-Keeps_example = Steps-Keeps none a6 lifespans
