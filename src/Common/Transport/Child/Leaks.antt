-- ===== src/Common/Transport/Child/Leaks.antt =====
-- Whether the subprocesses of packages/log-sump-common/src/log_sump_common/transport.py outlive the
-- calls that began them.
use log_sump.Base.{
  ◌≡◌, ◌≢◌, refl, ◌⊎◌, inl, inr, Bool, true, false, Option, none, some, subst, arith,
}
use log_sump.Base.Int.{ℤ}
use log_sump.Base.Text.{Text, Bytes}
use log_sump.Common.Transport.Child.{
  Child, Lives, writes, exits, kill, RunPoint, communicating, reaping, raised, returned, Run,
  result_of, RunStep, RunSteps, here, next, run, Generator, suspended, through, StreamPoint, inside,
  waiting, left, closing, Stream, stream_lines, finish, StreamStep, StreamSteps, stays, goes,
}
use log_sump.Common.Transport.Child

-- The process has ended, or was told to by a signal that it cannot refuse.
abbrev pub IsDoomed : Child → Type 0
IsDoomed c = (c.returncode ≢ none) ⊎ (c.killed ≡ true)

Lives-IsDoomed : (c d : Child) → Lives c d → IsDoomed c → IsDoomed d
Lives-IsDoomed _ _ (writes c o e n) (inl h) = inl h
Lives-IsDoomed _ _ (writes c o e n) (inr h) = inr h
Lives-IsDoomed _ _ (exits c code n) h = inl (λ e. absurd cc)

Lives-returncode : (c d : Child) (code : ℤ) → Lives c d → c.returncode ≡ some code → d ≡ c
Lives-returncode _ _ code (writes c o e n) h = absurd (ground (arith, n, h))
Lives-returncode _ _ code (exits c code' n) h = absurd (ground (arith, n, h))

Lives-killed : (c d : Child) → Lives c d → d.killed ≡ c.killed
Lives-killed _ _ (writes c o e n) = refl
Lives-killed _ _ (exits c code n) = refl

module _ (lenient : Bytes → Text) where
  -- At the end of `run`: a result is that of the ended process, and an exception leaves no process
  -- that goes on.
  abbrev pub IsDone : Child → RunPoint → Type 0
  IsDone c communicating = Unit
  IsDone c reaping = IsDoomed c
  IsDone c raised = IsDoomed c
  IsDone c (returned r) = (code : ℤ) × (c.returncode ≡ some code) × (r ≡ result_of lenient c code)

  Lives-IsDone : (c d : Child) (p : RunPoint) → Lives c d → IsDone c p → IsDone d p
  Lives-IsDone c d communicating l h = tt
  Lives-IsDone c d reaping l h = Lives-IsDoomed c d l h
  Lives-IsDone c d raised l h = Lives-IsDoomed c d l h
  Lives-IsDone c d (returned r) l (code, ended, h) =
      let same = Lives-returncode c d code l ended in (code, rw same ended, rw same h)

  RunStep-IsDone :
      (r s : Run) → RunStep lenient r s → IsDone r.child r.point → IsDone s.child s.point
  RunStep-IsDone _ _ (Child.lives r c l) h = Lives-IsDone r.child c r.point l h
  RunStep-IsDone _ _ (Child.communicates r code p e) h = (code, e, refl)
  RunStep-IsDone _ _ (Child.kills r p) h = inr refl
  RunStep-IsDone _ _ (Child.kill_raises r code p e) h = inl (λ n. absurd (ground (arith, n, e)))
  RunStep-IsDone _ _ (Child.reaps r code p e) h = inl (λ n. absurd (ground (arith, n, e)))
  RunStep-IsDone _ _ (Child.cancels_wait r p) h = subst (IsDone r.child) p h

  RunSteps-IsDone_from :
      (r s : Run) → RunSteps lenient r s → IsDone r.child r.point → IsDone s.child s.point
  RunSteps-IsDone_from _ _ (here r) h = h
  RunSteps-IsDone_from _ _ (next r s t st rest) h =
      RunSteps-IsDone_from s t rest (RunStep-IsDone r s st h)

  -- However often `run` is cancelled, and whatever its process does: when it returns, the result has
  -- the return code and the whole output of the process, which has ended; when it raises, and already
  -- from the first cancellation on, the process has ended or was killed.
  pub RunSteps-IsDone : (r : Run) → RunSteps lenient run r → IsDone r.child r.point
  RunSteps-IsDone r steps = RunSteps-IsDone_from run r steps tt

-- Behind `stream_lines`, the process has ended or was killed, unless aclose() was interrupted, and
-- then it was not killed.
abbrev pub IsClosed : Child → Bool → StreamPoint → Type 0
IsClosed c i inside = (i ≡ false) × (c.killed ≡ false)
IsClosed c i (closing g) = (i ≡ false) × (c.killed ≡ false)
IsClosed c i waiting = (i ≡ false) × IsDoomed c
IsClosed c i left = ((i ≡ false) × IsDoomed c) ⊎ ((i ≡ true) × (c.killed ≡ false))

Lives-IsClosed :
    (c d : Child) (i : Bool) (p : StreamPoint) → Lives c d → IsClosed c i p → IsClosed d i p
Lives-IsClosed c d i inside l (h, k) = (h, rw (Lives-killed c d l) k)
Lives-IsClosed c d i (closing g) l (h, k) = (h, rw (Lives-killed c d l) k)
Lives-IsClosed c d i waiting l (h, k) = (h, Lives-IsDoomed c d l k)
Lives-IsClosed c d i left l (inl (h, k)) = inl (h, Lives-IsDoomed c d l k)
Lives-IsClosed c d i left l (inr (h, k)) = inr (h, rw (Lives-killed c d l) k)

finish-IsClosed :
    (o : Option ℤ) (s : Stream)
    → s.child.returncode ≡ o
    → s.interrupted ≡ false
    → IsClosed (finish o s).child (finish o s).interrupted (finish o s).point
finish-IsClosed none s e i = (i, inr refl)
finish-IsClosed (some code) s e i = inl (i, inl (λ n. absurd (ground (arith, n, e))))

StreamStep-IsClosed :
    (s t : Stream)
    → StreamStep s t
    → IsClosed s.child s.interrupted s.point
    → IsClosed t.child t.interrupted t.point
StreamStep-IsClosed _ _ (Child.lives s c l) h = Lives-IsClosed s.child c s.interrupted s.point l h
StreamStep-IsClosed _ _ (Child.leaves s g p) h = subst (IsClosed s.child s.interrupted) p h
StreamStep-IsClosed _ _ (Child.closes s g p) h =
    finish-IsClosed s.child.returncode s refl (subst (IsClosed s.child s.interrupted) p h).0
StreamStep-IsClosed _ _ (Child.cancels_close s p) h =
    inr (refl, (subst (IsClosed s.child s.interrupted) p h).1)
StreamStep-IsClosed _ _ (Child.reaps s code p e) h =
    inl (subst (IsClosed s.child s.interrupted) p h)
StreamStep-IsClosed _ _ (Child.cancels_wait s p) h =
    inl (subst (IsClosed s.child s.interrupted) p h)

StreamSteps-IsClosed_from :
    (s t : Stream)
    → StreamSteps s t
    → IsClosed s.child s.interrupted s.point
    → IsClosed t.child t.interrupted t.point
StreamSteps-IsClosed_from _ _ (stays s) h = h
StreamSteps-IsClosed_from _ _ (goes s t u st rest) h =
    StreamSteps-IsClosed_from t u rest (StreamStep-IsClosed s t st h)

-- However `stream_lines` is left and cancelled, and whatever its process does: behind its end the
-- process has ended or was killed, unless a cancellation came while the generator was being closed;
-- then the process was not killed. Before the generator is closed the process is not killed either.
pub StreamSteps-IsClosed :
    (s : Stream) → StreamSteps stream_lines s → IsClosed s.child s.interrupted s.point
StreamSteps-IsClosed s steps = StreamSteps-IsClosed_from stream_lines s steps (refl, refl)
