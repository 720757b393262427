-- ===== src/Server/App/Lifespan/Owned.antt =====
-- Which connections the app of packages/log-sump-server/src/log_sump_server/app.py opens and closes.
use log_sump.Base.{
  ℕ, suc, zero, ◌+◌, ◌≤◌, ◌≡◌, ◌≢◌, refl, true, false, Option, none, some, List, [], ◌∷◌, ◌++◌, map,
  length, length-append, ap, sym, ◌∙◌, subst, arith,
}
use log_sump.Base.Tasks.{Phase, cancel, ended}
use log_sump.Server.App.Lifespan.{
  Connection, own, Point, idle, serving, stopping, App, create_app, enter, leave, close, Step,
  starts, ends, stops, closes, Steps, here, next, over, own_closed,
}

own_closed-suc : (n : ℕ) → own_closed n ++ (own 0 ∷ []) ≡ own_closed (suc n)
own_closed-suc zero = refl
own_closed-suc (suc n) = ap (λ l. own 0 ∷ l) (own_closed-suc n)

-- The connection that an app makes for itself: none before its first lifespan, then the same one.
data Made (a : App) : Type 0 where
  not_yet : a.redis ≡ none → a.opened ≡ 0 → a.point ≡ idle → Made a
  once : a.redis ≡ some (own 0) → a.opened ≡ 1 → Made a

-- Behind n lifespans of an app that was given a connection, or none.
abbrev Holds : Option Connection → ℕ → App → Type 0
Holds none n a = (a.owns_redis ≡ true) × (a.closed ≡ own_closed n) × Made a
Holds (some c) n a = (a.owns_redis ≡ false) × (a.closed ≡ []) × (a.redis ≡ some c) × (a.opened ≡ 0)

-- Two tasks while the app serves or stops, else none.
abbrev Counted : Point → ℕ → Type 0
Counted idle n = n ≡ 0
Counted serving n = n ≡ 2
Counted stopping n = n ≡ 2

record IsSound (redis : Option Connection) (n : ℕ) (a : App) : Type 0 where
  pub holds : Holds redis n a
  pub counted : Counted a.point (length a.tasks)

length-map-cancel : (ps : List Phase) → length (map cancel ps) ≡ length ps
length-map-cancel [] = refl
length-map-cancel (p ∷ ps) = ap suc (length-map-cancel ps)

length-replace :
    (before after : List Phase) (p q : Phase)
    → length (before ++ (q ∷ after)) ≡ length (before ++ (p ∷ after))
length-replace before after p q =
    length-append before (q ∷ after) ∙ sym (length-append before (p ∷ after))

enter-Made : (a : App) → Made a → Made (enter a)
unfolding enter
enter-Made a (not_yet r o p) = once (ground (arith, r, o)) (ground (arith, r, o))
enter-Made a (once r o) = once (ground (arith, r)) (ground (arith, r, o))

-- A enter leaves alone whether the app owns its connection, and what it has closed.
enter_kept : (a : App) → ((enter a).owns_redis ≡ a.owns_redis) × ((enter a).closed ≡ a.closed)
unfolding enter
enter_kept a = (ground arith, ground arith)

start_given :
    (c : Connection) (a : App)
    → a.redis ≡ some c
    → ((enter a).redis ≡ some c) × ((enter a).opened ≡ a.opened)
unfolding enter
start_given c a r = (ground (arith, r), ground (arith, r))

enter-Holds :
    (redis : Option Connection) (n : ℕ) (a : App) → Holds redis n a → Holds redis n (enter a)
enter-Holds none n a (owns, closed, made) =
    ((enter_kept a).0 ∙ owns, (enter_kept a).1 ∙ closed, enter-Made a made)
enter-Holds (some c) n a (owns, closed, r, o) =
    let (same, same') = start_given c a r in
    ((enter_kept a).0 ∙ owns, (enter_kept a).1 ∙ closed, same, same' ∙ o)

tasks-Holds :
    (redis : Option Connection) (n : ℕ) (a : App) (ps : List Phase)
    → Holds redis n a
    → Holds redis n (record a { tasks = ps })
tasks-Holds none n a ps (owns, closed, not_yet r o p) = (owns, closed, not_yet r o p)
tasks-Holds none n a ps (owns, closed, once r o) = (owns, closed, once r o)
tasks-Holds (some c) n a ps h = h

leave-Holds :
    (redis : Option Connection) (n : ℕ) (a : App)
    → a.point ≡ serving
    → Holds redis n a
    → Holds redis n (leave a)
unfolding leave
leave-Holds none n a e (owns, closed, not_yet r o p) = absurd (ground (arith, e, p))
leave-Holds none n a e (owns, closed, once r o) = (owns, closed, once r o)
leave-Holds (some c) n a e h = h

close-Holds :
    (redis : Option Connection) (n : ℕ) (a : App)
    → a.point ≡ stopping
    → Holds redis n a
    → Holds redis (suc n) (close a)
unfolding close
close-Holds none n a p (owns, closed, not_yet r o p') = absurd (ground (arith, p, p'))
close-Holds none n a p (owns, closed, once r o) =
    (owns, rw (owns, r, closed) (own_closed-suc n), once r o)
close-Holds (some c) n a p (owns, closed, r, o) = (owns, rw owns closed, r, o)

Counted-serving : (p : Point) (n : ℕ) → p ≡ serving → Counted p n → n ≡ 2
Counted-serving p n e h = subst (λ q. Counted q n) e h

-- What the step adds to the number of lifespans that are over.
abbrev after : (a b : App) → Step a b → ℕ → ℕ
after _ _ (starts a p) n = n
after _ _ (ends a l r p o e live) n = n
after _ _ (stops a p) n = n
after _ _ (closes a p h) n = suc n

Step-IsSound :
    (redis : Option Connection) (n : ℕ) (a b : App) (st : Step a b)
    → IsSound redis n a
    → IsSound redis (after a b st n) b
unfolding leave close
Step-IsSound redis n _ _ (starts a p) i = record {
  holds = enter-Holds redis n a i.holds;
  counted = unfold enter in refl;
}
Step-IsSound redis n _ _ (ends a l r p o e live) i = record {
  holds = tasks-Holds redis n a (l ++ (ended o ∷ r)) i.holds;
  counted = subst (Counted a.point) (ap length e ∙ length-replace l r (ended o) p) i.counted;
}
Step-IsSound redis n _ _ (stops a p) i = record {
  holds = leave-Holds redis n a p i.holds;
  counted = length-map-cancel a.tasks ∙ Counted-serving a.point _ p i.counted;
}
Step-IsSound redis n _ _ (closes a p h) i = record {
  holds = close-Holds redis n a p i.holds;
  counted = refl;
}

Steps-IsSound :
    (redis : Option Connection) (n : ℕ) (a b : App) (steps : Steps a b)
    → IsSound redis n a
    → IsSound redis (over a b steps + n) b
unfolding over
Steps-IsSound redis n _ _ (here a) i = subst (λ m. IsSound redis m a) (omega arith) i
Steps-IsSound redis n _ _ (next a b c (closes a' p h) rest) i =
    let ih = Steps-IsSound redis (suc n) b c rest (Step-IsSound redis n a b (closes a' p h) i) in
    subst (λ m. IsSound redis m c) (omega arith) ih
Steps-IsSound redis n _ _ (next a b c (starts a' p) rest) i =
    Steps-IsSound redis n b c rest (Step-IsSound redis n a b (starts a' p) i)
Steps-IsSound redis n _ _ (next a b c (ends a' l r p o e live) rest) i =
    Steps-IsSound redis n b c rest (Step-IsSound redis n a b (ends a' l r p o e live) i)
Steps-IsSound redis n _ _ (next a b c (stops a' p) rest) i =
    Steps-IsSound redis n b c rest (Step-IsSound redis n a b (stops a' p) i)

create_app-IsSound : (redis : Option Connection) → IsSound redis 0 (create_app redis)
unfolding create_app
create_app-IsSound none = record { holds = (refl, refl, not_yet refl refl refl); counted = refl }
create_app-IsSound (some c) = record { holds = (refl, refl, refl, refl); counted = refl }

-- The connections that an app has opened and closed behind n lifespans.
abbrev pub Keeps : Option Connection → ℕ → App → Type 0
Keeps none n a =
    (a.closed ≡ own_closed n) × (a.opened ≤ 1) × ((a.point ≢ idle) → a.redis ≡ some (own 0))
Keeps (some c) n a = (a.closed ≡ []) × (a.opened ≡ 0) × (a.redis ≡ some c)

IsSound-Keeps : (redis : Option Connection) (n : ℕ) (a : App) → Holds redis n a → Keeps redis n a
IsSound-Keeps none n a (owns, closed, not_yet r o p) =
    (closed, rw o (omega arith), λ busy. absurd (busy p))
IsSound-Keeps none n a (owns, closed, once r o) = (closed, rw o (omega arith), λ busy. r)
IsSound-Keeps (some c) n a (owns, closed, r, o) = (closed, o, r)

-- However the lifespans of an app and its background tasks interleave: an app that was given a
-- connection serves on this one, opens none and closes none; an app that was given none opens at most
-- one, serves on it in every lifespan, and closes it at the end of each. Between lifespans no
-- background task is left.
pub Steps-Keeps :
    (redis : Option Connection) (a : App) (steps : Steps (create_app redis) a)
    → Keeps redis (over (create_app redis) a steps) a × (a.point ≡ idle → length a.tasks ≡ 0)
Steps-Keeps redis a steps =
    let n = over (create_app redis) a steps in
    let i = Steps-IsSound redis 0 (create_app redis) a steps (create_app-IsSound redis) in
    let same : n + 0 ≡ n = omega arith in
    (
      IsSound-Keeps redis n a (subst (λ m. Holds redis m a) same i.holds),
      λ p. subst (λ q. Counted q (length a.tasks)) p i.counted,
    )
