-- ===== src/Common/Transport/Child/Samples.antt =====
-- A command that is cancelled, and a stream that is cancelled twice.
use log_sump.Base.{refl, true, some, []}
use log_sump.Base.Int.{pos}
use log_sump.Base.Text.{codes}
use log_sump.Common.Transport.Child.{
  RunStep, spawned, writes, exits, kill, communicating, returned, Run, RunSteps, here, next, run,
  suspended, left, closing, Stream, stream_lines, StreamSteps, stays, goes, communicates, leaves,
  result_of,
}
use log_sump.Common.Transport.Child
use log_sump.Common.Transport.Child.Leaks.{IsDone, RunSteps-IsDone, IsClosed, StreamSteps-IsClosed}

abbrev wrote : Run
wrote = record run { child = record spawned { out = codes "a" } }

abbrev exited : Run
exited = record wrote { child = record (wrote.child) { returncode = some (pos 1) } }

abbrev came_back : Run
came_back = record exited { point = returned (result_of (λ b. b) exited.child (pos 1)) }

ran : RunSteps (λ b. b) run came_back
ran =
    next run wrote came_back (RunStep.lives run wrote.child (writes spawned (codes "a") [] refl)) (
      next wrote exited came_back
        (RunStep.lives wrote exited.child (exits wrote.child (pos 1) refl))
        (next exited came_back came_back (communicates exited (pos 1) refl refl) (here came_back)))

RunSteps-IsDone_example : IsDone (λ b. b) came_back.child came_back.point
RunSteps-IsDone_example = RunSteps-IsDone (λ b. b) came_back ran

abbrev shutting : Stream
shutting = record stream_lines { point = closing suspended }

abbrev torn : Stream
torn = record shutting { point = left; interrupted = true }

-- The second cancellation leaves the process alone.
leaked : StreamSteps stream_lines torn
leaked =
    goes stream_lines shutting torn (leaves stream_lines suspended refl)
      (goes shutting torn torn (Child.cancels_close shutting refl) (stays torn))

StreamSteps-IsClosed_example : IsClosed torn.child true left
StreamSteps-IsClosed_example = StreamSteps-IsClosed torn leaked
