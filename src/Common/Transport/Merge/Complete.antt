-- ===== src/Common/Transport/Merge/Complete.antt =====
-- The lines that _merge_streams of packages/log-sump-common/src/log_sump_common/transport.py gives
-- out, stream by stream.
use mathlib.Core.Path.{subst}
use log_sump.Base.{
  ℕ, suc, ◌+◌, ◌≡◌, refl, true, false, List, [], ◌∷◌, ◌++◌, append_assoc, append-nil, if◌then◌else◌,
  arith,
}
use log_sump.Base.Text.{Text}
use log_sump.Common.Schema.{StreamName, stdout, stderr}
use log_sump.Common.Transport.{StreamLine}
use log_sump.Common.Transport.Merge.{
  same_stream, Item, line, through, Merge, start, pumped, pump, taken, get, Step, pumps, gets,
  Steps, here, next,
}
use log_sump.Common.Transport.Merge.Order.{
  texts, queued_texts, nones, items, IsOrdered, texts-append, queued_texts-append, nones-append,
  items-append, queued_texts-of_items, IsOrdered-append,
}

-- How many Nones of a stream are still to be counted.
abbrev pub pending : StreamName → Merge → ℕ
pending n s = if s.is_open n then 1 else nones n s.queue

-- Every line of a stream is given out, queued or left, in this order; its None is put when nothing is
-- left, and stands behind its lines; and `remaining` counts the Nones to come.
pub record IsSound (lines : StreamName → List Text) (s : Merge) : Type 0 where
  pub kept : (n : StreamName) → texts n s.yielded ++ (queued_texts n s.queue ++ s.left n) ≡ lines n
  pub unclosed : (n : StreamName) → s.is_open n ≡ true → nones n s.queue ≡ 0
  pub closed : (n : StreamName) → s.is_open n ≡ false → s.left n ≡ []
  pub over : (n : StreamName) → s.is_open n ≡ false → nones n s.queue ≡ 0 → items n s.queue ≡ 0
  pub ordered : (n : StreamName) → IsOrdered n s.queue
  pub counted : s.remaining ≡ pending stdout s + pending stderr s

same_stream-eq : (n m : StreamName) → same_stream n m ≡ true → n ≡ m
same_stream-eq stdout stdout h = refl
same_stream-eq stderr stderr h = refl
same_stream-eq stdout stderr h = cc
same_stream-eq stderr stdout h = cc

start-IsSound : (lines : StreamName → List Text) → IsSound lines (start lines)
start-IsSound lines = record {
  kept = λ n. refl;
  unclosed = λ n h. refl;
  closed = λ n h. cc;
  over = λ n h k. refl;
  ordered = λ n. tt;
  counted = refl;
}

module _ (lines : StreamName → List Text) (s : Merge) (i : IsSound lines s) where
  line-IsSound :
      (name : StreamName) (t : Text) (ts : List Text)
      → s.is_open name ≡ true
      → s.left name ≡ t ∷ ts
      → IsSound lines (pumped name (t ∷ ts) s)
  line-IsSound name t ts o e =
      let l : StreamLine = record { stream = name; text = t } in
      let x : Item = line l in
      record {
        kept = λ n. ground (
          arith,
          i.kept n,
          i.kept name,
          e,
          queued_texts-append n s.queue (x ∷ []),
          append_assoc (queued_texts n s.queue) (t ∷ []) ts,
          append-nil (queued_texts n s.queue),
          same_stream-eq n name,
        );
        unclosed = λ n h. ground (arith, h, i.unclosed n h, nones-append n s.queue (x ∷ []));
        closed = λ n h. ground (arith, h, o, i.closed n h);
        over = λ n h k. ground (
          arith,
          h,
          k,
          o,
          i.over n h,
          nones-append n s.queue (x ∷ []),
          items-append n s.queue (x ∷ []),
        );
        ordered = λ n. IsOrdered-append n s.queue x (i.ordered n) (ground (arith, o, i.unclosed n));
        counted = ground (
          arith,
          i.counted,
          nones-append stdout s.queue (x ∷ []),
          nones-append stderr s.queue (x ∷ []),
        );
      }

  through-IsSound :
      (name : StreamName)
      → s.is_open name ≡ true
      → s.left name ≡ []
      → IsSound lines (pumped name [] s)
  through-IsSound name o e =
      let x : Item = through name in
      record {
        kept = λ n. ground (
          arith,
          i.kept n,
          queued_texts-append n s.queue (x ∷ []),
          append-nil (queued_texts n s.queue),
        );
        unclosed = λ n h. ground (arith, h, i.unclosed n, nones-append n s.queue (x ∷ []));
        closed = λ n h. ground (arith, h, e, i.closed n);
        over = λ n h k. ground (
          arith,
          h,
          k,
          i.over n,
          nones-append n s.queue (x ∷ []),
          items-append n s.queue (x ∷ []),
        );
        ordered = λ n. IsOrdered-append n s.queue x (i.ordered n) (ground (arith, o, i.unclosed n));
        counted = ground (
          arith,
          i.counted,
          o,
          i.unclosed name o,
          nones-append stdout s.queue (x ∷ []),
          nones-append stderr s.queue (x ∷ []),
        );
      }

  taken-IsSound :
      (queue : List Item) (k : ℕ)
      → s.queue ≡ queue
      → s.remaining ≡ suc k
      → IsSound lines (taken queue s)
  taken-IsSound [] k e r = i
  taken-IsSound (line l ∷ queue) k e r = record {
    kept = λ n. ground (
      arith,
      i.kept n,
      e,
      texts-append n s.yielded (l ∷ []),
      append-nil (texts n s.yielded),
      append_assoc (texts n s.yielded) (l.text ∷ []) (queued_texts n queue ++ s.left n),
    );
    unclosed = λ n h. ground (arith, h, e, i.unclosed n);
    closed = λ n h. i.closed n h;
    over = λ n h k. ground (arith, h, k, e, i.over n);
    ordered = λ n. subst (IsOrdered n) e (i.ordered n);
    counted = ground (arith, i.counted, e);
  }
  taken-IsSound (through name ∷ queue) k e r = record {
    kept = λ n. ground (arith, i.kept n, e);
    unclosed = λ n h. ground (arith, h, e, i.unclosed n);
    closed = λ n h. i.closed n h;
    over = λ n h k. ground (arith, h, k, e, i.over n, (subst (IsOrdered n) e (i.ordered n)).0);
    ordered = λ n. (subst (IsOrdered n) e (i.ordered n)).1;
    counted = ground (arith, i.counted, e, i.unclosed stdout, i.unclosed stderr);
  }

pumped-IsSound :
    (lines : StreamName → List Text) (s : Merge) (name : StreamName) (left : List Text)
    → s.left name ≡ left
    → s.is_open name ≡ true
    → IsSound lines s
    → IsSound lines (pumped name left s)
pumped-IsSound lines s name [] e o i = through-IsSound lines s i name o e
pumped-IsSound lines s name (t ∷ ts) e o i = line-IsSound lines s i name t ts o e

Step-IsSound :
    (lines : StreamName → List Text) (s t : Merge) → Step s t → IsSound lines s → IsSound lines t
unfolding pump get
Step-IsSound lines _ _ (pumps s name o) i = pumped-IsSound lines s name (s.left name) refl o i
Step-IsSound lines _ _ (gets s k r ne) i = taken-IsSound lines s i s.queue k refl r

Steps-IsSound :
    (lines : StreamName → List Text) (k : ℕ) (s t : Merge)
    → Steps k s t
    → IsSound lines s
    → IsSound lines t
Steps-IsSound lines _ _ _ (here s) i = i
Steps-IsSound lines _ _ _ (next k s t u h hs) i =
    Steps-IsSound lines k t u hs (Step-IsSound lines s t h i)

pub Steps-IsSound_start :
    (lines : StreamName → List Text) (k : ℕ) (s : Merge) → Steps k (start lines) s → IsSound lines s
Steps-IsSound_start lines k s run = Steps-IsSound lines k (start lines) s run (start-IsSound lines)

pending-eq-zero :
    (n : StreamName) (s : Merge)
    → s.remaining ≡ 0
    → s.remaining ≡ pending stdout s + pending stderr s
    → pending n s ≡ 0
pending-eq-zero stdout s h e = omega (arith, h, e)
pending-eq-zero stderr s h e = omega (arith, h, e)

-- However the two pumps and the generator interleave, the lines given out of each stream are at any
-- time a beginning of that stream's lines, in their order.
pub Steps-prefix :
    (lines : StreamName → List Text) (k : ℕ) (s : Merge) (n : StreamName)
    → Steps k (start lines) s
    → (rest : List Text) × (texts n s.yielded ++ rest ≡ lines n)
Steps-prefix lines k s n run = (_, (Steps-IsSound_start lines k s run).kept n)

-- However the two pumps and the generator interleave, once the generator ends, since no pump remains,
-- it has given out every line of each stream, once and in the order of the stream.
pub Steps-complete :
    (lines : StreamName → List Text) (k : ℕ) (s : Merge) (n : StreamName)
    → Steps k (start lines) s
    → s.remaining ≡ 0
    → texts n s.yielded ≡ lines n
Steps-complete lines k s n run ended =
    let i = Steps-IsSound_start lines k s run in
    let none_due = pending-eq-zero n s ended i.counted in
    ground (
      arith,
      none_due,
      i.kept n,
      i.closed n,
      i.over n,
      queued_texts-of_items n s.queue,
      append-nil (texts n s.yielded),
    )
