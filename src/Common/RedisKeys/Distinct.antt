-- ===== src/Common/RedisKeys/Distinct.antt =====
-- The key spaces of packages/log-sump-common/src/log_sump_common/redis_keys.py.
use mathlib.Core.List.{append_cancel_left, append_cancel_right}
use log_sump.Base.{
  ◌≡◌, ◌≢◌, refl, ap, sym, List, [], ◌∷◌, ◌++◌, last, drop, nat_eq, ℕ, false, some, arith,
}
use log_sump.Base.Text.{Text, codes}
use log_sump.Common.Schema.{Kind, log, metric}
use log_sump.Common.RedisKeys.{ingest_list, stream_key, daemon_status_key, auth_key}

last-append {ℓ} :
    {A : Type ℓ} (xs : List A) (y : A) (ys : List A) → last (xs ++ y ∷ ys) ≡ last (y ∷ ys)
last-append [] y ys = refl
last-append (x ∷ []) y ys = refl
last-append (x ∷ x' ∷ xs) y ys = last-append (x' ∷ xs) y ys

-- The last characters of ":log" and ":metric" tell the two kinds apart.
log_ne_metric : (h h' : Text) → h ++ codes ":log" ≢ h' ++ codes ":metric"
log_ne_metric h h' e =
    let ends_g : last (h ++ codes ":log") ≡ some b'g' = last-append h b':' (codes "log") in
    let ends_c : last (h' ++ codes ":metric") ≡ some b'c' = last-append h' b':' (codes "metric") in
    ground (arith, ap last e)

-- The character behind "logsump:" tells the four families of keys apart.
abbrev family : Text → ℕ
family key = elim (drop 8 key) [ [] ↦ 0 | c ∷ rest ↦ c ]

differ : (c d : ℕ) → nat_eq c d ≡ false → c ≢ d
differ c d h e = ground arith

-- One key belongs to one daemon and one kind: whatever the names, two streams never share a key.
pub stream_key-injective :
    (h h' : Text) (k k' : Kind) → stream_key h k ≡ stream_key h' k' → (h ≡ h') × (k ≡ k')
unfolding stream_key
stream_key-injective h h' log log e = (
  append_cancel_right h h' (codes ":log") (append_cancel_left (codes "logsump:stream:") _ _ e),
  refl,
)
stream_key-injective h h' metric metric e = (
  append_cancel_right h h' (codes ":metric") (append_cancel_left (codes "logsump:stream:") _ _ e),
  refl,
)
stream_key-injective h h' log metric e =
    absurd (log_ne_metric h h' (append_cancel_left (codes "logsump:stream:") _ _ e))
stream_key-injective h h' metric log e =
    absurd (log_ne_metric h' h (sym (append_cancel_left (codes "logsump:stream:") _ _ e)))

-- The streams, the ingest list, the status hashes and the key sets live in disjoint key spaces.
pub key_spaces-disjoint :
    (sha256_hex : Text → Text) (h h' a : Text) (k : Kind)
    → (stream_key h k ≢ ingest_list)
      × (stream_key h k ≢ daemon_status_key h')
      × (stream_key h k ≢ auth_key sha256_hex a)
      × (daemon_status_key h ≢ ingest_list)
      × (daemon_status_key h ≢ auth_key sha256_hex a)
      × (auth_key sha256_hex a ≢ ingest_list)
unfolding stream_key ingest_list daemon_status_key auth_key
key_spaces-disjoint sha256_hex h h' a k = (
  (λ e. differ b's' b'i' refl (ap family e)),
  (λ e. differ b's' b'd' refl (ap family e)),
  (λ e. differ b's' b'a' refl (ap family e)),
  (λ e. differ b'd' b'i' refl (ap family e)),
  (λ e. differ b'd' b'a' refl (ap family e)),
  (λ e. differ b'a' b'i' refl (ap family e)),
)
