-- ===== src/Server/Ingest/Trimmer/Retention.antt =====
-- A sweep of packages/log-sump-server/src/log_sump_server/ingest/trimmer.py, and the retention of
-- each kind.
use log_sump.Base.{
  ℕ, ◌≡◌, ◌≢◌, refl, ap, ◌∙◌, inl, inr, Bool, true, false, ◌||◌, List, [], ◌∷◌, filterb,
  filterb_idem, if◌then◌else◌, arith, if_pos, if_neg,
}
use log_sump.Base.Int.{ℤ}
use log_sump.Base.Text.{Text, ◌==◌, text_discrete, contains}
use log_sump.Base.Errors.{Result, Result-cases, ok, redis_error}
use log_sump.Common.Schema.{Kind, log, metric}
use log_sump.Common.RedisKeys.{stream_key}
use log_sump.Common.RedisKeys.Distinct.{stream_key-injective}
use log_sump.Common.Redis.{Redis}
use log_sump.Common.Redis.Laws.{Entry, kept_by, IsRedis}
use log_sump.Server.Ingest.Trimmer.{minid_of, trim_stream, trim_daemons, trim_once}

abbrev pub trimmed_if : Bool → ℤ → List Entry → List Entry
trimmed_if hit m es = if hit then filterb (kept_by m) es else es

abbrev pub minid : ℤ → ℤ → Kind → ℤ
minid log_minid metric_minid log = log_minid
minid log_minid metric_minid metric = metric_minid

-- The days for which a kind is retained.
abbrev pub days : ℤ → ℤ → Kind → ℤ
days retention metrics_retention log = retention
days retention metrics_retention metric = metrics_retention

module _ (R : Redis) (laws : IsRedis R) where
  -- A failed XTRIM is caught, and changes no more than the server did.
  pub trim_stream_lem :
      (h : Text) (kind : Kind) (m : ℤ) (s : R.State)
      → trim_stream R h kind m s ≡ (ok tt, (R.xtrim (stream_key h kind) m s).1)
  unfolding trim_stream
  trim_stream_lem h kind m s = elim (Result-cases (R.xtrim (stream_key h kind) m s).0) [
    | inl (n, done) ↦ rw done
    | inr (e, failed) ↦
        let is_redis : e ≡ redis_error = laws.xtrim-raises s _ m failed in rw failed (rw is_redis)
  ]

  trim_stream_ok :
      (h : Text) (kind : Kind) (m : ℤ) (s : R.State) → (trim_stream R h kind m s).0 ≡ ok tt
  trim_stream_ok h kind m s = ap (λ r. r.0) (trim_stream_lem h kind m s)

  -- XTRIM answers for one stream; the others may fail.
  abbrev pub Replies : Text → Kind → Type 0
  Replies h kind = (s : R.State) (m : ℤ) → (n : ℤ) × ((R.xtrim (stream_key h kind) m s).0 ≡ ok n)

  -- The two trims of one daemon.
  abbrev pub visited : ℤ → ℤ → Text → R.State → R.State
  visited log_minid metric_minid d s =
      (trim_stream R d metric metric_minid (trim_stream R d log log_minid s).1).1

  -- A trim of another stream.
  pub trim_else :
      (h d : Text) (kind other : Kind) (m : ℤ) (s : R.State)
      → stream_key h kind ≢ stream_key d other
      → laws.stream (trim_stream R d other m s).1 (stream_key h kind)
        ≡ laws.stream s (stream_key h kind)
  trim_else h d kind other m s differ =
      rw (trim_stream_lem d other m s) (laws.xtrim-else s _ m _ differ)

  trim_self :
      (h : Text) (kind : Kind) (m : ℤ) (s : R.State)
      → Replies h kind
      → laws.stream (trim_stream R h kind m s).1 (stream_key h kind)
        ≡ filterb (kept_by m) (laws.stream s (stream_key h kind))
  trim_self h kind m s replies =
      let (n, done) = replies s m in rw (trim_stream_lem h kind m s) (laws.xtrim-done s _ m done)

  -- A trim of a stream of the same kind.
  trim_kind :
      (h d : Text) (kind : Kind) (m : ℤ) (s : R.State)
      → Replies h kind
      → laws.stream (trim_stream R d kind m s).1 (stream_key h kind)
        ≡ trimmed_if (h == d) m (laws.stream s (stream_key h kind))
  trim_kind h d kind m s replies = elim (text_discrete h d) [
    | yes same ↦ rw (if_pos (text_discrete h d) same) (rw (← same) (trim_self h kind m s replies))
    | no differ ↦
        rw (if_neg (text_discrete h d) differ)
          (trim_else h d kind kind m s (λ e. differ (stream_key-injective h d kind kind e).0))
  ]

  visited_lem :
      (h d : Text) (kind : Kind) (lm mm : ℤ) (s : R.State)
      → Replies h kind
      → laws.stream (visited lm mm d s) (stream_key h kind)
        ≡ trimmed_if (h == d) (minid lm mm kind) (laws.stream s (stream_key h kind))
  visited_lem h d log lm mm s replies =
      trim_else h d log metric mm _ (λ e. ground (arith, (stream_key-injective h d log metric e).1))
      ∙ trim_kind h d log lm s replies
  visited_lem h d metric lm mm s replies =
      trim_kind h d metric mm _ replies
      ∙ ap (trimmed_if (h == d) mm) (
          trim_else h d metric log lm s
            (λ e. ground (arith, (stream_key-injective h d metric log e).1)))

  trimmed_twice :
      (a b : Bool) (m : ℤ) (es : List Entry)
      → trimmed_if b m (trimmed_if a m es) ≡ trimmed_if (a || b) m es
  trimmed_twice true true m es = filterb_idem (kept_by m) es
  trimmed_twice true false m es = refl
  trimmed_twice false b m es = refl

  -- The loop goes on behind each daemon, whether its trims failed or not.
  pub trim_daemons_cons :
      (lm mm : ℤ) (d : Text) (ds : List Text) (s : R.State)
      → trim_daemons R lm mm (d ∷ ds) s ≡ trim_daemons R lm mm ds (visited lm mm d s)
  unfolding trim_daemons
  trim_daemons_cons lm mm d ds s =
      rw (trim_stream_ok d log lm s) (rw (trim_stream_ok d metric mm _))

  trim_daemons_lem :
      (h : Text) (kind : Kind) (lm mm : ℤ) (ds : List Text) (s : R.State)
      → Replies h kind
      → laws.stream (trim_daemons R lm mm ds s).1 (stream_key h kind)
        ≡ trimmed_if (contains ds h) (minid lm mm kind) (laws.stream s (stream_key h kind))
  unfolding trim_daemons
  trim_daemons_lem h kind lm mm [] s replies = refl
  trim_daemons_lem h kind lm mm (d ∷ ds) s replies =
      ap (λ (r : Result Unit × R.State). laws.stream r.1 (stream_key h kind))
        (trim_daemons_cons lm mm d ds s)
      ∙ trim_daemons_lem h kind lm mm ds (visited lm mm d s) replies
      ∙ ap (trimmed_if (contains ds h) (minid lm mm kind)) (visited_lem h d kind lm mm s replies)
      ∙ trimmed_twice (h == d) (contains ds h) (minid lm mm kind) _

  trim_daemons_ok :
      (lm mm : ℤ) (ds : List Text) (s : R.State) → (trim_daemons R lm mm ds s).0 ≡ ok tt
  unfolding trim_daemons
  trim_daemons_ok lm mm [] s = refl
  trim_daemons_ok lm mm (d ∷ ds) s =
      ap (λ r. r.0) (trim_daemons_cons lm mm d ds s) ∙ trim_daemons_ok lm mm ds (visited lm mm d s)

  pub minid-minid_of :
      (now_ms : ℕ) (rd md : ℤ) (kind : Kind)
      → minid (minid_of now_ms rd) (minid_of now_ms md) kind ≡ minid_of now_ms (days rd md kind)
  minid-minid_of now_ms rd md log = refl
  minid-minid_of now_ms rd md metric = refl

  -- A sweep returns, whatever else fails on the way. If XTRIM answers for the stream of one configured
  -- daemon and one kind, then that stream holds afterwards the entries that are not older than the
  -- kind's own days of retention, all of them and no others, also where the trims of other streams
  -- fail.
  pub trim_once-enforces :
      (now_ms : ℕ) (ds : List Text) (retention_days metrics_retention_days : ℤ) (s : R.State)
      (h : Text) (kind : Kind)
      → Replies h kind
      → contains ds h ≡ true
      → ((trim_once R now_ms ds retention_days metrics_retention_days s).0 ≡ ok tt)
        × (laws.stream
              (trim_once R now_ms ds retention_days metrics_retention_days s).1
              (stream_key h kind)
            ≡ filterb
                (kept_by (minid_of now_ms (days retention_days metrics_retention_days kind)))
                (laws.stream s (stream_key h kind)))
  unfolding trim_once
  trim_once-enforces now_ms ds rd md s h kind replies listed = (
    trim_daemons_ok _ _ ds s,
    trim_daemons_lem h kind _ _ ds s replies
        ∙ ap
            (λ b.
              trimmed_if b (minid (minid_of now_ms rd) (minid_of now_ms md) kind)
                (laws.stream s (stream_key h kind)))
            listed
        ∙ ap (λ m. filterb (kept_by m) (laws.stream s (stream_key h kind)))
            (minid-minid_of now_ms rd md kind),
  )
