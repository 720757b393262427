-- ===== src/Server/App/Lifespan.antt =====
-- The lifespan of the app of packages/log-sump-server/src/log_sump_server/app.py: its connection to Redis,
-- and the two background tasks. A connection that cannot be made and a cancellation of the lifespan
-- itself are left out.
pub mod Owned
use log_sump.Base.{
  ℕ, suc, zero, ◌+◌, ◌≤◌, ◌≡◌, ◌≢◌, refl, Bool, true, false, Option, none, some, List, [], ◌∷◌,
  ◌++◌, map, All, if◌then◌else◌, ◌⊎◌, inl, inr, length, length-append, All-append, ap, sym, subst,
  arith,
}
use log_sump.Base.Tasks.{
  Outcome, returned, cancelled, Phase, running, cancelling, ended, cancel, IsOver,
}

-- The connection given to `create_app`, or one of Redis.from_url, in the order in which they were made.
pub data Connection : Type 0 where
  given : Connection
  own : ℕ → Connection

-- Where the lifespan stands: the app is not begun or over, it serves, or it waits for its tasks.
pub data Point : Type 0 where
  idle serving stopping : Point

-- `redis` and `owns_redis` are the variables of `create_app`, which all lifespans of the app share;
-- `closed` are the connections on which aclose() was called. The tasks are those of the consumer and
-- of the trimmer, while there are any.
pub record App : Type 0 where
  pub redis : Option Connection
  pub owns_redis : Bool
  pub opened : ℕ
  pub closed : List Connection
  pub tasks : List Phase
  pub point : Point

abbrev is_none : Option Connection → Bool
is_none none = true
is_none (some c) = false

unfoldable pub create_app : Option Connection → App
create_app redis = record {
  redis = redis;
  owns_redis = is_none redis;
  opened = 0;
  closed = [];
  tasks = [];
  point = idle;
}

-- Up to `yield`.
abbrev pub connected : Option Connection → App → App
connected none a = record a { redis = some (own a.opened); opened = suc a.opened }
connected (some c) a = a

unfoldable pub enter : App → App
enter a = record (connected a.redis a) { tasks = running ∷ running ∷ []; point = serving }

-- task.cancel() for both
unfoldable pub leave : App → App
leave a = record a { tasks = map cancel a.tasks; point = stopping }

abbrev pub connections : Option Connection → List Connection
connections none = []
connections (some c) = c ∷ []

-- What follows asyncio.gather, which returns the exceptions of the tasks.
unfoldable pub close : App → App
close a = record a {
  closed = if a.owns_redis then a.closed ++ connections a.redis else a.closed;
  tasks = [];
  point = idle;
}

pub data Step : App → App → Type 0 where
  starts : (a : App) → a.point ≡ idle → Step a (enter a)
  ends :
      (a : App) (before after : List Phase) (p : Phase) (o : Outcome)
      → a.tasks ≡ before ++ (p ∷ after)
      → (IsOver p → ⊥)
      → Step a (record a { tasks = before ++ (ended o ∷ after) })
  stops : (a : App) → a.point ≡ serving → Step a (leave a)
  closes : (a : App) → a.point ≡ stopping → All IsOver a.tasks → Step a (close a)

pub data Steps : App → App → Type 0 where
  here : (a : App) → Steps a a
  next : (a b c : App) → Step a b → Steps b c → Steps a c

-- How many lifespans are over.
pub over : (a b : App) → Steps a b → ℕ
over _ _ (here a) = 0
over _ _ (next a b c (closes _ _ _) rest) = suc (over b c rest)
over _ _ (next a b c _ rest) = over b c rest

-- n times the first connection that the app made.
abbrev pub own_closed : ℕ → List Connection
own_closed zero = []
own_closed (suc n) = own 0 ∷ own_closed n
