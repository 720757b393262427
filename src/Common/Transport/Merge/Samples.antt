-- ===== src/Common/Transport/Merge/Samples.antt =====
-- A command that prints one line on each stream, in one interleaving.
use log_sump.Base.{◌+◌, ◌*◌, ◌≤◌, ◌≡◌, ◌≢◌, ◌++◌, refl, ◌⊎◌, List, [], ◌∷◌, length}
use log_sump.Base.Text.{Text, codes}
use log_sump.Common.Schema.{StreamName, stdout, stderr}
use log_sump.Common.Transport.Merge.{Merge, start, pump, get, Step, pumps, gets, Steps, here, next}
use log_sump.Common.Transport.Merge.Order.{texts}
use log_sump.Common.Transport.Merge.Complete.{Steps-complete}
use log_sump.Common.Transport.Merge.Ends.{Steps-bounded}
use log_sump.Common.Transport.Merge.Stalled.{break, given, break-IsStuck}

abbrev lines : StreamName → List Text
lines stdout = codes "a" ∷ []
lines stderr = codes "b" ∷ []

abbrev s0 : Merge
s0 = start lines

abbrev s1 : Merge
s1 = pump stdout s0

abbrev s2 : Merge
s2 = get s1

abbrev s3 : Merge
s3 = pump stderr s2

abbrev s4 : Merge
s4 = pump stdout s3

abbrev s5 : Merge
s5 = pump stderr s4

abbrev s6 : Merge
s6 = get s5

abbrev s7 : Merge
s7 = get s6

abbrev s8 : Merge
s8 = get s7

run : Steps 8 s0 s8
unfolding pump get
run = next 7 s0 s1 s8 (pumps s0 stdout refl) (
    next 6 s1 s2 s8 (gets s1 1 refl (cc)) (
      next 5 s2 s3 s8 (pumps s2 stderr refl) (
        next 4 s3 s4 s8 (pumps s3 stdout refl) (
          next 3 s4 s5 s8 (pumps s4 stderr refl) (
            next 2 s5 s6 s8 (gets s5 1 refl (cc)) (
              next 1 s6 s7 s8 (gets s6 1 refl (cc))
                (next 0 s7 s8 s8 (gets s7 0 refl (cc)) (here s8))))))))

ended_test : s8.remaining ≡ 0
unfolding pump get
ended_test = refl

Steps-complete_example : texts stderr s8.yielded ≡ codes "b" ∷ []
Steps-complete_example = Steps-complete lines 8 s8 stderr run ended_test

Steps-bounded_example :
    (8 ≤ 2 * length (lines stdout) + 2 * length (lines stderr) + 4)
    × ((s8.remaining ≡ 0) ⊎ ((t : Merge) × Step s8 t))
Steps-bounded_example = Steps-bounded lines 8 s8 run

-- The pump of stdout raises after its line, and the rest goes on as far as it can.
abbrev b1 : Merge
b1 = break stdout s1

abbrev b2 : Merge
b2 = get b1

stuck : Steps 1 b1 b2
unfolding pump get break
stuck = next 0 b1 b2 b2 (gets b1 1 refl (cc)) (here b2)

before : Steps 1 s0 s1
before = next 0 s0 s1 s1 (pumps s0 stdout refl) (here s1)

break-IsStuck_example :
    (b2.remaining ≢ 0)
    × (given stdout b2 ≡ given stdout s1)
    × (given stdout b2 ++ s1.left stdout ≡ lines stdout)
unfolding pump
break-IsStuck_example = break-IsStuck lines stdout 1 1 s1 b2 before refl stuck
