-- ===== src/Common/Transport/Child.antt =====
-- Transport.run and Transport.stream_lines of packages/log-sump-common/src/log_sump_common/transport.py:
-- the subprocess of a command, and what a cancellation does to it. That asyncio creates the subprocess
-- is taken as one step, which is not cancelled, and the model starts with the subprocess created: where
-- it cannot be, the loops are given `err os_error` as what the command came to.
pub mod Leaks
mod Samples
use log_sump.Base.{ℕ, suc, ◌≡◌, Bool, true, false, Option, none, some, List, [], ◌++◌}
use log_sump.Base.Int.{ℤ}
use log_sump.Base.Text.{Text, Bytes}
use log_sump.Common.Transport.{ExecResult}

-- A subprocess with pipes, as asyncio shows it: its return code, what it has written, and whether it
-- was sent SIGKILL.
pub record Child : Type 0 where
  pub returncode : Option ℤ
  pub out : Bytes
  pub err : Bytes
  pub killed : Bool

abbrev pub spawned : Child
spawned = record { returncode = none; out = []; err = []; killed = false }

-- What the subprocess does by itself.
pub data Lives : Child → Child → Type 0 where
  writes :
      (c : Child) (o e : Bytes)
      → c.returncode ≡ none
      → Lives c (record c { out = c.out ++ o; err = c.err ++ e })
  exits :
      (c : Child) (code : ℤ) → c.returncode ≡ none → Lives c (record c { returncode = some code })

abbrev pub kill : Child → Child
kill c = record c { killed = true }

-- Where `run` stands: at `proc.communicate()`, at the `proc.wait()` behind a cancellation, or behind
-- its end, by return or by an exception.
pub data RunPoint : Type 0 where
  communicating reaping raised : RunPoint
  returned : ExecResult → RunPoint

pub record Run : Type 0 where
  pub child : Child
  pub point : RunPoint

-- `lenient` stands for bytes.decode(errors="replace").
abbrev pub result_of : (Bytes → Text) → Child → ℤ → ExecResult
result_of lenient c code = record {
  returncode = code;
  stdout = lenient c.out;
  stderr = lenient c.err;
}

module _ (lenient : Bytes → Text) where
  -- `run` is cancelled at any await, more than once; kill() finds that the process is gone, or kills.
  pub data RunStep : Run → Run → Type 0 where
    lives : (r : Run) (c : Child) → Lives r.child c → RunStep r (record r { child = c })
    communicates :
        (r : Run) (code : ℤ)
        → r.point ≡ communicating
        → r.child.returncode ≡ some code
        → RunStep r (record r { point = returned (result_of lenient r.child code) })
    kills :
        (r : Run)
        → r.point ≡ communicating
        → RunStep r (record { child = kill r.child; point = reaping })
    kill_raises :
        (r : Run) (code : ℤ)
        → r.point ≡ communicating
        → r.child.returncode ≡ some code
        → RunStep r (record r { point = raised })
    reaps :
        (r : Run) (code : ℤ)
        → r.point ≡ reaping
        → r.child.returncode ≡ some code
        → RunStep r (record r { point = raised })
    cancels_wait : (r : Run) → r.point ≡ reaping → RunStep r (record r { point = raised })

  pub data RunSteps : Run → Run → Type 0 where
    here : (r : Run) → RunSteps r r
    next : (r s t : Run) → RunStep r s → RunSteps s t → RunSteps r t

abbrev pub run : Run
run = record { child = spawned; point = communicating }

-- The generator of the lines, when the block under `async with` is left: suspended at a `yield`, or
-- never begun or through, where aclose() has nothing to await.
pub data Generator : Type 0 where
  suspended through : Generator

-- Where `stream_lines` stands: in the block, at `lines.aclose()`, at `proc.wait()`, or behind its end.
pub data StreamPoint : Type 0 where
  inside waiting left : StreamPoint
  closing : Generator → StreamPoint

-- `interrupted` tells whether aclose() was cancelled.
pub record Stream : Type 0 where
  pub child : Child
  pub point : StreamPoint
  pub interrupted : Bool

abbrev pub stream_lines : Stream
stream_lines = record { child = spawned; point = inside; interrupted = false }

-- if proc.returncode is None: proc.kill() and the await of its end
abbrev pub finish : Option ℤ → Stream → Stream
finish none s = record s { child = kill s.child; point = waiting }
finish (some code) s = record s { point = left }

-- The block is left by its end, an exception or a cancellation; the awaits of `finally` may be
-- cancelled too.
pub data StreamStep : Stream → Stream → Type 0 where
  lives : (s : Stream) (c : Child) → Lives s.child c → StreamStep s (record s { child = c })
  leaves :
      (s : Stream) (g : Generator)
      → s.point ≡ inside
      → StreamStep s (record s { point = closing g })
  closes :
      (s : Stream) (g : Generator)
      → s.point ≡ closing g
      → StreamStep s (finish s.child.returncode s)
  cancels_close :
      (s : Stream)
      → s.point ≡ closing suspended
      → StreamStep s (record s { point = left; interrupted = true })
  reaps :
      (s : Stream) (code : ℤ)
      → s.point ≡ waiting
      → s.child.returncode ≡ some code
      → StreamStep s (record s { point = left })
  cancels_wait : (s : Stream) → s.point ≡ waiting → StreamStep s (record s { point = left })

pub data StreamSteps : Stream → Stream → Type 0 where
  stays : (s : Stream) → StreamSteps s s
  goes : (s t u : Stream) → StreamStep s t → StreamSteps t u → StreamSteps s u
