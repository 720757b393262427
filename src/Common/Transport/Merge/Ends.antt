-- ===== src/Common/Transport/Merge/Ends.antt =====
-- The end of _merge_streams of packages/log-sump-common/src/log_sump_common/transport.py.
use log_sump.Base.{
  ℕ, suc, zero, ◌+◌, ◌*◌, ◌≤◌, ◌≡◌, ◌≢◌, refl, ◌⊎◌, inl, inr, true, List, [], ◌∷◌, if◌then◌else◌,
  Bool-cases, length, length-append, arith,
}
use log_sump.Base.Text.{Text}
use log_sump.Common.Schema.{StreamName, stdout, stderr}
use log_sump.Common.Transport.Merge.{
  Item, line, through, Merge, start, pumped, pump, taken, get, Step, pumps, gets, Steps, here, next,
}
use log_sump.Common.Transport.Merge.Complete.{pending, Steps-IsSound_start}

-- What one stream still costs: two steps for each line and for its None.
abbrev cost : StreamName → Merge → ℕ
cost n s = 2 * length (s.left n) + (if s.is_open n then 2 else 0)

abbrev work : Merge → ℕ
work s = cost stdout s + cost stderr s + length s.queue

pumped-work :
    (name : StreamName) (left : List Text) (s : Merge)
    → s.left name ≡ left
    → s.is_open name ≡ true
    → work (pumped name left s) + 1 ≡ work s
pumped-work name [] s e o = ground (arith, e, o, length-append s.queue (through name ∷ []))
pumped-work name (t ∷ ts) s e o =
    ground (arith, e, o, length-append s.queue (line (record { stream = name; text = t }) ∷ []))

taken-work :
    (queue : List Item) (s : Merge)
    → s.queue ≡ queue
    → queue ≢ []
    → work (taken queue s) + 1 ≡ work s
taken-work [] s e ne = absurd (ne refl)
taken-work (line l ∷ queue) s e ne = ground (arith, e)
taken-work (through name ∷ queue) s e ne = ground (arith, e)

Step-work : (s t : Merge) → Step s t → work t + 1 ≡ work s
unfolding pump get
Step-work _ _ (pumps s name o) = pumped-work name (s.left name) s refl o
Step-work _ _ (gets s k r ne) = taken-work s.queue s refl ne

Steps-work : (k : ℕ) (s t : Merge) → Steps k s t → k + work t ≡ work s
Steps-work _ _ _ (here s) = omega arith
Steps-work _ _ _ (next k s t u h hs) = omega (arith, Steps-work k t u hs, Step-work s t h)

zero_or_suc : (n : ℕ) → (n ≡ 0) ⊎ ((m : ℕ) × (n ≡ suc m))
zero_or_suc zero = inl refl
zero_or_suc (suc m) = inr (m, refl)

-- Where some pump remains, some coroutine can go on.
can_go_on :
    (s : Merge) (m : ℕ)
    → s.remaining ≡ suc m
    → s.remaining ≡ pending stdout s + pending stderr s
    → (t : Merge) × Step s t
can_go_on s m r c = elim (Bool-cases (s.is_open stdout)) [
  | inl o ↦ (pump stdout s, pumps s stdout o)
  | inr shut ↦ elim (Bool-cases (s.is_open stderr)) [
    | inl o ↦ (pump stderr s, pumps s stderr o)
    | inr shut' ↦ (get s, gets s m r λ e. absurd (ground (arith, r, c, e, shut, shut')))
  ]
]

-- However the two pumps and the generator interleave, they take at most two steps for each line of the
-- two streams and four more; and as long as some pump remains, one of them can take a step. So the
-- generator ends, and no interleaving makes it wait for ever.
pub Steps-bounded :
    (lines : StreamName → List Text) (k : ℕ) (s : Merge)
    → Steps k (start lines) s
    → (k ≤ 2 * length (lines stdout) + 2 * length (lines stderr) + 4)
      × ((s.remaining ≡ 0) ⊎ ((t : Merge) × Step s t))
Steps-bounded lines k s run = (
  omega (arith, Steps-work k (start lines) s run),
  elim (zero_or_suc s.remaining) [
    | inl e ↦ inl e
    | inr (m, e) ↦ inr (can_go_on s m e (Steps-IsSound_start lines k s run).counted)
  ],
)
