-- ===== src/Listener/Main/Shutdown.antt =====
-- What packages/log-sump-listener/src/log_sump_listener/__main__.py leaves behind: whether the
-- records logger was flushed and closed.
use log_sump.Base.{
  ℕ, ◌≡◌, ◌≢◌, refl, ◌⊎◌, inl, inr, Option, none, some, List, [], ◌∷◌, ◌++◌, map, sym, subst,
}
use log_sump.Base.Errors.{Error, Result, ok, err}
use log_sump.Common.Config.{LogstashConfig, Settings}
use log_sump.Listener.Logging.{
  Handler, RecordsLogger, new_handler, shut, build_records_logger, close_records_logger,
}
use log_sump.Listener.Wiring.{Task}
use log_sump.Base.Tasks.{Outcome, returned, cancelled, raised, Phase, ended, cancel, IsOver}
use log_sump.Listener.Main.{
  Point, waiting, joining, left, gone, Process, begin, stop_run, wake, joined, Step, ends, returns,
  fails, is_cancelled, signals, wakes, joins, cleans_up, Listens, spawns, stops, finishes, Steps,
  here, next, beside,
}

-- Some task is in this phase.
abbrev pub Has : Phase → List Phase → Type 0
Has p [] = ⊥
Has p (x ∷ xs) = (x ≡ p) ⊎ Has p xs

Has-middle : (p : Phase) (before after : List Phase) → Has p (before ++ (p ∷ after))
Has-middle p [] after = inl refl
Has-middle p (x ∷ before) after = inr (Has-middle p before after)

Has-cancel : (o : Outcome) (ps : List Phase) → Has (ended o) ps → Has (ended o) (map cancel ps)
Has-cancel o [] h = elim h [ ]
Has-cancel o (p ∷ ps) (inl e) = inl (rw e refl)
Has-cancel o (p ∷ ps) (inr h) = inr (Has-cancel o ps h)

-- A loop that has ended stays ended.
Has-replace :
    (o o' : Outcome) (before after : List Phase) (p : Phase)
    → (IsOver p → ⊥)
    → Has (ended o) (before ++ (p ∷ after))
    → Has (ended o) (before ++ (ended o' ∷ after))
Has-replace o o' [] after p live (inl e) = absurd (live (rw e tt))
Has-replace o o' [] after p live (inr h) = inr h
Has-replace o o' (x ∷ before) after p live (inl e) = inl e
Has-replace o o' (x ∷ before) after p live (inr h) = inr (Has-replace o o' before after p live h)

-- An end of `run` by an exception is that of a loop.
abbrev IsOf : Option Outcome → List Phase → Type 0
IsOf (some (raised e)) ps = Has (ended (raised e)) ps
IsOf o ps = Unit

IsOf-cancel : (o : Option Outcome) (ps : List Phase) → IsOf o ps → IsOf o (map cancel ps)
IsOf-cancel none ps h = tt
IsOf-cancel (some returned) ps h = tt
IsOf-cancel (some cancelled) ps h = tt
IsOf-cancel (some (raised e)) ps h = Has-cancel (raised e) ps h

IsOf-replace :
    (r : Option Outcome) (o : Outcome) (before after : List Phase) (p : Phase)
    → (IsOver p → ⊥)
    → IsOf r (before ++ (p ∷ after))
    → IsOf r (before ++ (ended o ∷ after))
IsOf-replace none o before after p live h = tt
IsOf-replace (some returned) o before after p live h = tt
IsOf-replace (some cancelled) o before after p live h = tt
IsOf-replace (some (raised e)) o before after p live h =
    Has-replace (raised e) o before after p live h

IsOf-middle :
    (o : Outcome) (before after : List Phase) → IsOf (some o) (before ++ (ended o ∷ after))
IsOf-middle returned before after = tt
IsOf-middle cancelled before after = tt
IsOf-middle (raised e) before after = Has-middle (ended (raised e)) before after

-- At the end of `_run_until_signal`, by return or by an exception: the handlers, and how `run` ended.
abbrev IsEnd : LogstashConfig → List Handler → Option Outcome → Result (Unit {0}) → Type 0
IsEnd c hs o (ok _) =
    (hs ≡ shut (new_handler c) ∷ []) × ((o ≡ some returned) ⊎ (o ≡ some cancelled))
IsEnd c hs o (err e) = (hs ≡ new_handler c ∷ []) × (o ≡ some (raised e))

abbrev IsAt : LogstashConfig → List Handler → Option Outcome → Point → Type 0
IsAt c hs o waiting = hs ≡ new_handler c ∷ []
IsAt c hs o joining = hs ≡ new_handler c ∷ []
IsAt c hs o (left r) = IsEnd c hs o r
IsAt c hs o (gone r) = IsEnd c hs o r

IsEnd-none : (c : LogstashConfig) (hs : List Handler) (r : Result Unit) → IsEnd c hs none r → ⊥
IsEnd-none c hs (ok _) (h, inl e) = cc
IsEnd-none c hs (ok _) (h, inr e) = cc
IsEnd-none c hs (err x) (h, e) = cc

-- `run` ends before `_run_until_signal` does.
IsAt-done :
    (c : LogstashConfig) (hs : List Handler) (o : Option Outcome) (o' : Outcome) (p : Point)
    → o ≡ none
    → IsAt c hs o p
    → IsAt c hs (some o') p
IsAt-done c hs o o' waiting e h = h
IsAt-done c hs o o' joining e h = h
IsAt-done c hs o o' (left r) e h = absurd (IsEnd-none c hs r (subst (λ x. IsEnd c hs x r) e h))
IsAt-done c hs o o' (gone r) e h = absurd (IsEnd-none c hs r (subst (λ x. IsEnd c hs x r) e h))

abbrev IsSound : LogstashConfig → Process → Type 0
IsSound c s = IsAt c s.logger.handlers s.run_task s.point × IsOf s.run_task s.loops

module _ (c : LogstashConfig) where
  stop_run-IsSound :
      (o : Option Outcome) (s : Process)
      → s.point ≡ waiting
      → IsSound c s
      → IsSound c (stop_run o s)
  stop_run-IsSound (some o) s e (at, of) = (subst (IsAt c s.logger.handlers s.run_task) e at, of)
  stop_run-IsSound none s e (at, of) =
      (subst (IsAt c s.logger.handlers s.run_task) e at, IsOf-cancel s.run_task s.loops of)

  joined-IsSound :
      (o : Outcome) (s : Process)
      → s.point ≡ joining
      → s.run_task ≡ some o
      → IsSound c s
      → IsSound c (joined o s)
  unfolding joined close_records_logger
  joined-IsSound returned s e r (at, of) =
      let fresh = subst (IsAt c s.logger.handlers s.run_task) e at in ((rw fresh refl, inl r), of)
  joined-IsSound cancelled s e r (at, of) =
      let fresh = subst (IsAt c s.logger.handlers s.run_task) e at in ((rw fresh refl, inr r), of)
  joined-IsSound (raised x) s e r (at, of) =
      ((subst (IsAt c s.logger.handlers s.run_task) e at, r), of)

  Step-IsSound : (s t : Process) → Step s t → IsSound c s → IsSound c t
  unfolding wake
  Step-IsSound _ _ (ends s before after p o e live) (at, of) =
      (at, IsOf-replace s.run_task o before after p live (subst (IsOf s.run_task) e of))
  Step-IsSound _ _ (returns s n h) (at, of) = (IsAt-done c _ _ returned s.point n at, tt)
  Step-IsSound _ _ (fails s before after o n e ne) (at, of) =
      (IsAt-done c _ _ o s.point n at, subst (IsOf (some o)) (sym e) (IsOf-middle o before after))
  Step-IsSound _ _ (is_cancelled s n h k) (at, of) = (IsAt-done c _ _ cancelled s.point n at, tt)
  Step-IsSound _ _ (signals s h) i = i
  Step-IsSound _ _ (wakes s e d) i = stop_run-IsSound s.run_task s e i
  Step-IsSound _ _ (joins s o e r) i = joined-IsSound o s e r i
  Step-IsSound _ _ (cleans_up s r e) (at, of) =
      (subst (IsAt c s.logger.handlers s.run_task) e at, IsOf-cancel s.run_task s.loops of)

  Listens-IsSound : (s t : Process) → Listens s t → IsSound c s → IsSound c t
  Listens-IsSound _ _ (spawns s) i = i
  Listens-IsSound _ _ (stops s before after e) i = i
  Listens-IsSound _ _ (finishes s before after p o e live) i = i

  Steps-IsSound : (k : ℕ) (s t : Process) → Steps k s t → IsSound c s → IsSound c t
  Steps-IsSound _ _ _ (here s) i = i
  Steps-IsSound _ _ _ (next k s t u st rest) i = Steps-IsSound k t u rest (Step-IsSound s t st i)
  Steps-IsSound _ _ _ (beside k s t u st rest) i =
      Steps-IsSound k t u rest (Listens-IsSound s t st i)

-- How `_run_until_signal` ends: by return with the one handler flushed and closed, or by an exception
-- of a loop, with the handler not even flushed.
abbrev pub IsShutdown : LogstashConfig → Process → Result (Unit {0}) → Type 0
IsShutdown c s (ok _) =
    (s.logger.handlers ≡ shut (new_handler c) ∷ []) × ((e : Error) → s.run_task ≢ some (raised e))
IsShutdown c s (err e) = (s.logger.handlers ≡ new_handler c ∷ []) × Has (ended (raised e)) s.loops

IsSound-IsShutdown :
    (c : LogstashConfig) (s : Process) (r : Result Unit)
    → s.point ≡ left r
    → IsSound c s
    → IsShutdown c s r
IsSound-IsShutdown c s (ok _) p (at, of) =
    let (flushed, quiet) = subst (IsAt c s.logger.handlers s.run_task) p at in
    (flushed, λ e r. elim quiet [ inl q ↦ cc | inr q ↦ cc ])
IsSound-IsShutdown c s (err e) p (at, of) =
    let (fresh, r) = subst (IsAt c s.logger.handlers s.run_task) p at in
    (fresh, subst (λ o. IsOf o s.loops) r of)

-- However the loops, the listeners and the signals interleave, and whatever handlers the records logger
-- had before: when `_run_until_signal` ends by return, the one handler of the records logger, built from
-- the settings, was told to flush and to close, and `run` did not end by an exception of its own; when
-- it ends by an exception, this is one that a loop raised, and the handler was told neither.
pub Steps-IsShutdown :
    (settings : Settings) (logger : RecordsLogger) (tasks : List Task) (k : ℕ) (s : Process)
    (r : Result Unit)
    → Steps k (begin settings logger tasks) s
    → s.point ≡ left r
    → IsShutdown settings.logstash s r
unfolding begin build_records_logger
Steps-IsShutdown settings logger tasks k s r run p =
    IsSound-IsShutdown settings.logstash s r p
      (Steps-IsSound settings.logstash k (begin settings logger tasks) s run (refl, tt))
