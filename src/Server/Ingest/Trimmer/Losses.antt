-- ===== src/Server/Ingest/Trimmer/Losses.antt =====
-- What a sweep of packages/log-sump-server/src/log_sump_server/ingest/trimmer.py may remove, where
-- calls fail.
use mathlib.Core.Path.{subst}
use log_sump.Base.{
  ℕ, ◌≡◌, refl, ap, ◌∙◌, ◌⊎◌, inl, inr, List, [], ◌∷◌, filterb, filterb_idem, arith,
}
use log_sump.Base.Int.{ℤ}
use log_sump.Base.Text.{Text, text_discrete}
use log_sump.Base.Errors.{Result-cases}
use log_sump.Common.Schema.{Kind, log, metric}
use log_sump.Common.RedisKeys.{stream_key}
use log_sump.Common.RedisKeys.Distinct.{stream_key-injective}
use log_sump.Common.Redis.{Redis}
use log_sump.Common.Redis.Laws.{Entry, kept_by, IsRedis}
use log_sump.Server.Ingest.Trimmer.{minid_of, trim_stream, trim_daemons, trim_once}
use log_sump.Server.Ingest.Trimmer.Retention.{
  trim_stream_lem, trim_else, minid, visited, trim_daemons_cons, days,
}

-- What may have become of a stream: nothing, or a trim.
abbrev pub LosesOnly : ℤ → List Entry → List Entry → Type 0
LosesOnly m before later = (later ≡ before) ⊎ (later ≡ filterb (kept_by m) before)

module _ (R : Redis) (laws : IsRedis R) where
  LosesOnly-trans :
      (m : ℤ) {a b c : List Entry} → LosesOnly m a b → LosesOnly m b c → LosesOnly m a c
  LosesOnly-trans m (inl p) (inl q) = inl (q ∙ p)
  LosesOnly-trans m (inl p) (inr q) = inr (q ∙ ap (filterb (kept_by m)) p)
  LosesOnly-trans m (inr p) (inl q) = inr (q ∙ p)
  LosesOnly-trans m {a} (inr p) (inr q) =
      inr (q ∙ ap (filterb (kept_by m)) p ∙ filterb_idem (kept_by m) a)

  trim_self_any :
      (h : Text) (kind : Kind) (m : ℤ) (s : R.State)
      → LosesOnly m
          (laws.stream s (stream_key h kind))
          (laws.stream (trim_stream R h kind m s).1 (stream_key h kind))
  trim_self_any h kind m s =
      rw (trim_stream_lem R laws h kind m s)
        (elim (Result-cases (R.xtrim (stream_key h kind) m s).0) [
          | inl (n, done) ↦ inr (laws.xtrim-done s _ m done)
          | inr (e, failed) ↦ laws.xtrim-failed s _ m failed
        ])

  trim_kind_any :
      (h d : Text) (kind : Kind) (m : ℤ) (s : R.State)
      → LosesOnly m
          (laws.stream s (stream_key h kind))
          (laws.stream (trim_stream R d kind m s).1 (stream_key h kind))
  trim_kind_any h d kind m s = elim (text_discrete h d) [
    | yes same ↦
        subst
          (λ (e : Text).
            LosesOnly m (laws.stream s (stream_key h kind))
              (laws.stream (trim_stream R e kind m s).1 (stream_key h kind)))
          same (trim_self_any h kind m s)
    | no differ ↦
        inl (
          trim_else R laws h d kind kind m s (λ e. differ (stream_key-injective h d kind kind e).0))
  ]

  visited_any :
      (h d : Text) (kind : Kind) (lm mm : ℤ) (s : R.State)
      → LosesOnly
          (minid lm mm kind)
          (laws.stream s (stream_key h kind))
          (laws.stream (visited R laws lm mm d s) (stream_key h kind))
  visited_any h d log lm mm s = LosesOnly-trans lm (trim_kind_any h d log lm s) (
      inl (
        trim_else R laws h d log metric mm _
          (λ e. ground (arith, (stream_key-injective h d log metric e).1))))
  visited_any h d metric lm mm s =
      LosesOnly-trans mm
        (inl (
          trim_else R laws h d metric log lm s
            (λ e. ground (arith, (stream_key-injective h d metric log e).1))))
        (trim_kind_any h d metric mm _)

  trim_daemons_any :
      (h : Text) (kind : Kind) (lm mm : ℤ) (ds : List Text) (s : R.State)
      → LosesOnly
          (minid lm mm kind)
          (laws.stream s (stream_key h kind))
          (laws.stream (trim_daemons R lm mm ds s).1 (stream_key h kind))
  unfolding trim_daemons
  trim_daemons_any h kind lm mm [] s = inl refl
  trim_daemons_any h kind lm mm (d ∷ ds) s = rw (trim_daemons_cons R laws lm mm d ds s) (
      LosesOnly-trans (minid lm mm kind) (visited_any h d kind lm mm s)
        (trim_daemons_any h kind lm mm ds (visited R laws lm mm d s)))

  -- Whichever calls fail in a sweep, each stream of each daemon, configured or not, is afterwards
  -- what it was, or what it was less the entries that are older than its kind's days of retention.
  pub trim_once-LosesOnly :
      (now_ms : ℕ) (ds : List Text) (retention_days metrics_retention_days : ℤ) (s : R.State)
      (h : Text) (kind : Kind)
      → LosesOnly
          (minid_of now_ms (days retention_days metrics_retention_days kind))
          (laws.stream s (stream_key h kind))
          (laws.stream
            (trim_once R now_ms ds retention_days metrics_retention_days s).1
            (stream_key h kind))
  unfolding trim_once
  trim_once-LosesOnly now_ms ds rd md s h log = trim_daemons_any h log _ _ ds s
  trim_once-LosesOnly now_ms ds rd md s h metric = trim_daemons_any h metric _ _ ds s
