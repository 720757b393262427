-- ===== src/Listener/Main/Progress.antt =====
-- That packages/log-sump-listener/src/log_sump_listener/__main__.py comes to its end after a signal.
use log_sump.Base.{
  ℕ, ◌+◌, ◌≤◌, ◌≡◌, refl, ◌⊎◌, inl, inr, true, Option, none, some, List, [], ◌∷◌, ◌++◌, map, length,
  if◌then◌else◌, All, Option-cases, subst, arith,
}
use log_sump.Base.Errors.{Result}
use log_sump.Common.Config.{Settings}
use log_sump.Listener.Logging.{RecordsLogger}
use log_sump.Listener.Wiring.{Task}
use log_sump.Base.Tasks.{
  Outcome, returned, cancelled, raised, Phase, running, cancelling, ended, cancel, IsOver,
}
use log_sump.Listener.Main.{
  Point, waiting, joining, left, gone, Process, begin, stop_run, wake, joined, Step, ends, returns,
  fails, is_cancelled, signals, wakes, joins, cleans_up, Listens, spawns, stops, finishes, Steps,
  here, next, beside,
}

-- What is still to be done: one end for each loop and for `run`, one signal, and three steps of
-- `_run_until_signal` and asyncio.run.
abbrev loop_work : Phase → ℕ
loop_work (ended o) = 0
loop_work running = 1
loop_work cancelling = 1

abbrev loops_work : List Phase → ℕ
loops_work [] = 0
loops_work (p ∷ ps) = loop_work p + loops_work ps

abbrev run_work : Option Outcome → ℕ
run_work none = 1
run_work (some o) = 0

abbrev point_work : Point → ℕ
point_work waiting = 3
point_work joining = 2
point_work (left r) = 1
point_work (gone r) = 0

abbrev work : Process → ℕ
work s =
    loops_work s.loops + run_work s.run_task + (if s.signalled then 0 else 1) + point_work s.point

loops_work-cancel : (ps : List Phase) → loops_work (map cancel ps) ≡ loops_work ps
loops_work-cancel [] = refl
loops_work-cancel (running ∷ ps) = omega (arith, loops_work-cancel ps)
loops_work-cancel (cancelling ∷ ps) = omega (arith, loops_work-cancel ps)
loops_work-cancel (ended o ∷ ps) = omega (arith, loops_work-cancel ps)

loops_work-replace :
    (before after : List Phase) (p : Phase) (o : Outcome)
    → (IsOver p → ⊥)
    → loops_work (before ++ (ended o ∷ after)) + 1 ≡ loops_work (before ++ (p ∷ after))
loops_work-replace [] after running o live = omega arith
loops_work-replace [] after cancelling o live = omega arith
loops_work-replace [] after (ended o') o live = absurd (live tt)
loops_work-replace (x ∷ before) after p o live =
    omega (arith, loops_work-replace before after p o live)

loops_work-start : (tasks : List Task) → loops_work (map (λ task. running) tasks) ≡ length tasks
loops_work-start [] = refl
loops_work-start (task ∷ tasks) = omega (arith, loops_work-start tasks)

stop_run-work :
    (o : Option Outcome) (s : Process) → s.point ≡ waiting → work (stop_run o s) + 1 ≡ work s
stop_run-work none s e = ground (arith, e, loops_work-cancel s.loops)
stop_run-work (some o) s e = ground (arith, e)

joined-work : (o : Outcome) (s : Process) → s.point ≡ joining → work (joined o s) + 1 ≡ work s
unfolding joined
joined-work returned s e = ground (arith, e)
joined-work cancelled s e = ground (arith, e)
joined-work (raised x) s e = ground (arith, e)

Step-work : (s t : Process) → Step s t → work t + 1 ≡ work s
unfolding wake
Step-work _ _ (ends s before after p o e live) =
    ground (arith, e, loops_work-replace before after p o live)
Step-work _ _ (returns s n h) = ground (arith, n)
Step-work _ _ (fails s before after o n e ne) = ground (arith, n)
Step-work _ _ (is_cancelled s n h k) = ground (arith, n)
Step-work _ _ (signals s h) = ground (arith, h)
Step-work _ _ (wakes s e d) = stop_run-work s.run_task s e
Step-work _ _ (joins s o e r) = joined-work o s e
Step-work _ _ (cleans_up s r e) = ground (arith, e, loops_work-cancel s.loops)

Listens-work : (s t : Process) → Listens s t → work t ≡ work s
Listens-work _ _ (spawns s) = refl
Listens-work _ _ (stops s before after e) = refl
Listens-work _ _ (finishes s before after p o e live) = refl

Steps-work : (k : ℕ) (s t : Process) → Steps k s t → k + work t ≡ work s
Steps-work _ _ _ (here s) = omega arith
Steps-work _ _ _ (next k s t u st rest) = omega (arith, Step-work s t st, Steps-work k t u rest)
Steps-work _ _ _ (beside k s t u st rest) =
    omega (arith, Listens-work s t st, Steps-work k t u rest)

-- Once `_run_until_signal` awaits a `run` that is not done, every loop was told to end.
abbrev IsTold : Phase → Type 0
IsTold running = ⊥
IsTold _ = Unit

abbrev IsStopping : Process → Type 0
IsStopping s = s.point ≡ joining → s.run_task ≡ none → (s.cancel_asked ≡ true) × All IsTold s.loops

All-cancel : (ps : List Phase) → All IsTold (map cancel ps)
All-cancel [] = tt
All-cancel (running ∷ ps) = (tt, All-cancel ps)
All-cancel (cancelling ∷ ps) = (tt, All-cancel ps)
All-cancel (ended o ∷ ps) = (tt, All-cancel ps)

All-replace :
    (before after : List Phase) (p : Phase) (o : Outcome)
    → All IsTold (before ++ (p ∷ after))
    → All IsTold (before ++ (ended o ∷ after))
All-replace [] after p o h = (tt, h.1)
All-replace (x ∷ before) after p o h = (h.0, All-replace before after p o h.1)

stop_run-IsStopping :
    (o : Option Outcome) (s : Process) → s.run_task ≡ o → IsStopping (stop_run o s)
stop_run-IsStopping none s e p n = (refl, All-cancel s.loops)
stop_run-IsStopping (some o) s e p n = absurd (ground (arith, e, n))

joined-IsStopping : (o : Outcome) (s : Process) → IsStopping (joined o s)
unfolding joined
joined-IsStopping returned s p n = absurd (ground (arith, p))
joined-IsStopping cancelled s p n = absurd (ground (arith, p))
joined-IsStopping (raised e) s p n = absurd (ground (arith, p))

Step-IsStopping : (s t : Process) → Step s t → IsStopping s → IsStopping t
unfolding wake
Step-IsStopping _ _ (ends s before after p o e live) i a n =
    let (asked, told) = i a n in (asked, All-replace before after p o (subst (All IsTold) e told))
Step-IsStopping _ _ (returns s n h) i a m = absurd (ground (arith, m))
Step-IsStopping _ _ (fails s before after o n e ne) i a m = absurd (ground (arith, m))
Step-IsStopping _ _ (is_cancelled s n h k) i a m = absurd (ground (arith, m))
Step-IsStopping _ _ (signals s h) i a m = i a m
Step-IsStopping _ _ (wakes s e d) i a m = stop_run-IsStopping s.run_task s refl a m
Step-IsStopping _ _ (joins s o e r) i a m = joined-IsStopping o s a m
Step-IsStopping _ _ (cleans_up s r e) i a n = absurd (ground (arith, a))

Listens-IsStopping : (s t : Process) → Listens s t → IsStopping s → IsStopping t
Listens-IsStopping _ _ (spawns s) i = i
Listens-IsStopping _ _ (stops s before after e) i = i
Listens-IsStopping _ _ (finishes s before after p o e live) i = i

Steps-IsStopping : (k : ℕ) (s t : Process) → Steps k s t → IsStopping s → IsStopping t
Steps-IsStopping _ _ _ (here s) i = i
Steps-IsStopping _ _ _ (next k s t u st rest) i =
    Steps-IsStopping k t u rest (Step-IsStopping s t st i)
Steps-IsStopping _ _ _ (beside k s t u st rest) i =
    Steps-IsStopping k t u rest (Listens-IsStopping s t st i)

-- A step that nothing but the program and the cancellation of a loop brings about.
abbrev pub IsDriven : (s t : Process) → Step s t → Type 0
IsDriven s t (ends _ _ _ p _ _ _) = p ≡ cancelling
IsDriven s t (signals _ _) = ⊥
IsDriven s t _ = Unit

abbrev pub Goes : Process → Type 0
Goes s = (t : Process) × (st : Step s t) × IsDriven s t st

-- Of tasks that were told to end, all have ended, or there is one that has not.
told-cases :
    (ps : List Phase)
    → All IsTold ps
    → All IsOver ps
      ⊎ ((before : List Phase) × (after : List Phase) × (ps ≡ before ++ (cancelling ∷ after)))
told-cases [] h = inl tt
told-cases (running ∷ ps) h = absurd h.0
told-cases (cancelling ∷ ps) h = inr ([], ps, refl)
told-cases (ended o ∷ ps) h = elim (told-cases ps h.1) [
  | inl over ↦ inl (tt, over)
  | inr (before, after, e) ↦ inr (ended o ∷ before, after, rw e refl)
]

go_on_joining : (s : Process) → IsStopping s → s.point ≡ joining → Goes s
go_on_joining s i p = elim (Option-cases s.run_task) [
  | inr (o, e) ↦ (joined o s, joins s o p e, tt)
  | inl n ↦ elim (told-cases s.loops (i p n).1) [
    | inl over ↦ (_, is_cancelled s n (i p n).0 over, tt)
    | inr (before, after, e) ↦ (_, ends s before after cancelling cancelled e (λ h. h), refl)
  ]
]

-- How far `_run_until_signal` and asyncio.run have come: to the end, or they can go on.
point-cases :
    (p : Point) (s : Process)
    → s.point ≡ p
    → s.signalled ≡ true
    → IsStopping s
    → ((r : Result Unit) × (s.point ≡ gone r)) ⊎ Goes s
point-cases waiting s e h i = inr (wake s, wakes s e (inl h), tt)
point-cases joining s e h i = inr (go_on_joining s i e)
point-cases (left r) s e h i = inr (_, cleans_up s r e, tt)
point-cases (gone r) s e h i = inl (r, e)

-- However the loops, the listeners and the signals interleave, the loops, `run` and
-- `_run_until_signal` take at most one step for each loop and five more; and from a signal on, until
-- all tasks were cancelled behind the end of `_run_until_signal`, one of them can go on at once, or a
-- loop has still to take its cancellation.
pub Steps-ends :
    (settings : Settings) (logger : RecordsLogger) (tasks : List Task) (k : ℕ) (s : Process)
    → Steps k (begin settings logger tasks) s
    → (k ≤ length tasks + 5)
      × (s.signalled ≡ true → ((r : Result Unit) × (s.point ≡ gone r)) ⊎ Goes s)
unfolding begin
Steps-ends settings logger tasks k s run = (
  omega (arith, Steps-work k (begin settings logger tasks) s run, loops_work-start tasks),
  λ h.
      point-cases s.point s refl h (
        Steps-IsStopping k (begin settings logger tasks) s run (λ p n. absurd (ground (arith, p)))),
)
