-- ===== src/Common/Transport/Merge/Stalled.antt =====
-- A pump of packages/log-sump-common/src/log_sump_common/transport.py that raises: StreamReader refuses
-- a line over its limit with a ValueError, and no None follows.
use log_sump.Base.{
  Bool-cases, ℕ, ◌+◌, ◌≡◌, ◌≢◌, refl, ◌⊎◌, inl, inr, true, false, List, [], ◌∷◌, ◌++◌, append_assoc,
  append-nil, sym, ◌∙◌, ap, subst, arith,
}
use log_sump.Base.Text.{Text}
use log_sump.Common.Schema.{StreamName, stdout, stderr}
use log_sump.Common.Transport.Merge.{
  same_stream, set, Item, line, through, Merge, pumped, pump, taken, get, start, Step, pumps, gets,
  Steps, here, next,
}
use log_sump.Common.Transport.Merge.Order.{
  texts, queued_texts, nones, texts-append, queued_texts-append, nones-append,
}
use log_sump.Common.Transport.Merge.Complete.{pending, IsSound, Steps-IsSound_start}

-- The pump of a stream ends without its None. Nobody awaits it before the generator closes.
unfoldable pub break : StreamName → Merge → Merge
break name s = record s { is_open = set name false s.is_open }

abbrev other : StreamName → StreamName
other stdout = stderr
other stderr = stdout

-- What of a stream was given out or is in the queue.
abbrev pub given : StreamName → Merge → List Text
given n s = texts n s.yielded ++ queued_texts n s.queue

-- The stream `n` has no pump and no None, and nothing more of it comes; `remaining` counts the missing
-- None and that of the other stream.
record IsStalled (n : StreamName) (before left : List Text) (s : Merge) : Type 0 where
  pub shut : s.is_open n ≡ false
  pub no_none : nones n s.queue ≡ 0
  pub kept : given n s ≡ before
  pub rest : s.left n ≡ left
  pub other_open : s.is_open (other n) ≡ true → nones (other n) s.queue ≡ 0
  pub counted : s.remaining ≡ 1 + pending (other n) s

other_differs : (n : StreamName) → same_stream n (other n) ≡ false
other_differs stdout = refl
other_differs stderr = refl

same_self : (n : StreamName) → same_stream n n ≡ true
same_self stdout = refl
same_self stderr = refl

stream-cases : (n m : StreamName) → (m ≡ n) ⊎ (m ≡ other n)
stream-cases stdout stdout = inl refl
stream-cases stdout stderr = inr refl
stream-cases stderr stdout = inr refl
stream-cases stderr stderr = inl refl

module _ (n : StreamName) (before left : List Text) where
  -- The other pump goes on.
  other-IsStalled :
      (ts : List Text) (s : Merge)
      → s.is_open (other n) ≡ true
      → IsStalled n before left s
      → IsStalled n before left (pumped (other n) ts s)
  other-IsStalled [] s o i =
      let x : Item = through (other n) in
      let end = nones-append n s.queue (x ∷ []) in
      let end' = nones-append (other n) s.queue (x ∷ []) in
      let text = queued_texts-append n s.queue (x ∷ []) in
      record {
        shut = ground (arith, i.shut, other_differs n);
        no_none = ground (arith, i.no_none, end, other_differs n);
        kept = ground (arith, i.kept, text, append-nil (queued_texts n s.queue));
        rest = i.rest;
        other_open = λ h. absurd (ground (arith, h, same_self (other n)));
        counted = ground (arith, i.counted, i.other_open o, o, end', same_self (other n));
      }
  other-IsStalled (t ∷ ts) s o i =
      let x : Item = line (record { stream = other n; text = t }) in
      let end = nones-append n s.queue (x ∷ []) in
      let end' = nones-append (other n) s.queue (x ∷ []) in
      let text = queued_texts-append n s.queue (x ∷ []) in
      record {
        shut = i.shut;
        no_none = ground (arith, i.no_none, end);
        kept = ground (arith, i.kept, text, other_differs n, append-nil (queued_texts n s.queue));
        rest = ground (arith, i.rest, other_differs n);
        other_open = λ h. ground (arith, h, i.other_open h, end');
        counted = ground (arith, i.counted, o);
      }

  pumped-IsStalled :
      (name : StreamName) (s : Merge)
      → s.is_open name ≡ true
      → IsStalled n before left s
      → IsStalled n before left (pumped name (s.left name) s)
  pumped-IsStalled name s o i = elim (stream-cases n name) [
    | inl e ↦ absurd (ground (arith, o, i.shut, ap s.is_open e))
    | inr e ↦
        subst (λ m. IsStalled n before left (pumped m (s.left m) s)) (sym e)
          (other-IsStalled (s.left (other n)) s (subst (λ m. s.is_open m ≡ true) e o) i)
  ]

  taken-IsStalled :
      (q : List Item) (s : Merge)
      → s.queue ≡ q
      → IsStalled n before left s
      → IsStalled n before left (taken q s)
  taken-IsStalled [] s e i = i
  taken-IsStalled (line l ∷ q) s e i = record {
    shut = i.shut;
    no_none = ground (arith, i.no_none, e);
    kept = ground (
      arith,
      i.kept,
      e,
      texts-append n s.yielded (l ∷ []),
      append-nil (texts n s.yielded),
      append_assoc (texts n s.yielded) (l.text ∷ []) (queued_texts n q),
    );
    rest = i.rest;
    other_open = λ h. ground (arith, h, i.other_open h, e);
    counted = ground (arith, i.counted, e);
  }
  taken-IsStalled (through m ∷ q) s e i = elim (stream-cases n m) [
    | inl same ↦ absurd (ground (arith, i.no_none, e, same, same_self n))
    | inr differs ↦ record {
      shut = i.shut;
      no_none = ground (arith, i.no_none, e, differs, other_differs n);
      kept = ground (arith, i.kept, e);
      rest = i.rest;
      other_open = λ h. absurd (ground (arith, h, i.other_open h, e, differs, same_self (other n)));
      counted = elim (Bool-cases (s.is_open (other n))) [
        | inl h ↦ absurd (ground (arith, i.other_open h, e, differs, same_self (other n)))
        | inr h ↦ ground (arith, h, i.counted, e, differs, same_self (other n))
      ];
    }
  ]

  Step-IsStalled : (s t : Merge) → Step s t → IsStalled n before left s → IsStalled n before left t
  unfolding pump get
  Step-IsStalled _ _ (pumps s name o) i = pumped-IsStalled name s o i
  Step-IsStalled _ _ (gets s k r ne) i = taken-IsStalled s.queue s refl i

  Steps-IsStalled :
      (k : ℕ) (s t : Merge) → Steps k s t → IsStalled n before left s → IsStalled n before left t
  Steps-IsStalled _ _ _ (here s) i = i
  Steps-IsStalled _ _ _ (next k s t u st rest) i =
      Steps-IsStalled k t u rest (Step-IsStalled s t st i)

break-IsStalled :
    (lines : StreamName → List Text) (n : StreamName) (s : Merge)
    → s.is_open n ≡ true
    → IsSound lines s
    → IsStalled n (given n s) (s.left n) (break n s)
unfolding break
break-IsStalled lines stdout s o i = record {
  shut = refl;
  no_none = i.unclosed stdout o;
  kept = refl;
  rest = refl;
  other_open = λ h. i.unclosed stderr h;
  counted = ground (arith, i.counted, o);
}
break-IsStalled lines stderr s o i = record {
  shut = refl;
  no_none = i.unclosed stderr o;
  kept = refl;
  rest = refl;
  other_open = λ h. i.unclosed stdout h;
  counted = ground (arith, i.counted, o);
}

-- If at some moment the pump of a stream raises, then however the rest interleaves, the generator never
-- ends, and the lines that the stream had left are never given out: what is given out of it or waits in
-- the queue stays what it was.
pub break-IsStuck :
    (lines : StreamName → List Text) (n : StreamName) (k j : ℕ) (s t : Merge)
    → Steps k (start lines) s
    → s.is_open n ≡ true
    → Steps j (break n s) t
    → (t.remaining ≢ 0) × (given n t ≡ given n s) × (given n t ++ s.left n ≡ lines n)
break-IsStuck lines n k j s t before o after =
    let sound = Steps-IsSound_start lines k s before in
    let i =
      Steps-IsStalled n (given n s) (s.left n) j (break n s) t after
        (break-IsStalled lines n s o sound) in
    (
      λ e. absurd (ground (arith, e, i.counted)),
      i.kept,
      rw i.kept
          (append_assoc (texts n s.yielded) (queued_texts n s.queue) (s.left n) ∙ sound.kept n),
    )
