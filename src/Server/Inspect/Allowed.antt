-- ===== src/Server/Inspect/Allowed.antt =====
-- The spellings of commands, and the allowlist of
-- packages/log-sump-server/src/log_sump_server/redis_inspect.py.
use log_sump.Base.{
  ◌<◌, ◌≡◌, refl, Bool, true, false, ◌&&◌, List, [], ◌∷◌, map, if◌then◌else◌, All, arith, ltb, ◌++◌,
}
use log_sump.Base.Text.{
  Text, codes, strip, lstrip, rstrip, is_space, contains, text_discrete, ◌==◌, Unicode, ascii_upper,
}
use log_sump.Base.Errors.{ok, err, command_not_allowed}
use log_sump.Server.Inspect.{allowed_commands, check_command_allowed}

-- An ASCII text that neither `strip` nor `upper` changes.
abbrev ascii_test : Text → Bool
ascii_test [] = true
ascii_test (c ∷ s) = ltb c 128 && ascii_test s

abbrev is_normal : Text → Bool
is_normal s = ascii_test s && ((strip s == s) && (map ascii_upper s == s))

ascii_test-All : (s : Text) → ascii_test s ≡ true → All (λ c. c < 128) s
ascii_test-All [] h = tt
ascii_test-All (c ∷ s) h = (ground arith, ascii_test-All s (ground arith))

abbrev all_normal : List Text → Bool
all_normal [] = true
all_normal (x ∷ xs) = is_normal x && all_normal xs

allowed_commands-normal : all_normal allowed_commands ≡ true
unfolding allowed_commands strip lstrip rstrip text_discrete
allowed_commands-normal = refl

contains-normal :
    (xs : List Text) (a : Text) → all_normal xs ≡ true → contains xs a ≡ true → is_normal a ≡ true
contains-normal [] a h c = cc
contains-normal (x ∷ xs) a h c = ground (arith, contains-normal xs a)

normalized-allowed :
    (U : Unicode) (n : Text) → contains allowed_commands n ≡ true → check_command_allowed U n ≡ ok n
unfolding check_command_allowed
normalized-allowed U n c =
    let normal = contains-normal allowed_commands n allowed_commands-normal c in
    ground (arith, normal, c, U.upper_ascii n (ascii_test-All n (ground (arith, normal))))

accepted-listed :
    (U : Unicode) (command n : Text)
    → check_command_allowed U command ≡ ok n
    → contains allowed_commands n ≡ true
unfolding check_command_allowed
accepted-listed U command n h = ground (arith, h)

-- A command that `check_command_allowed` accepts as `n` has `n` on the allowlist, without surrounding
-- space, and `n` itself is accepted, as `n` again: what is sent to Redis is the one spelling of an
-- allowed command.
pub check_command_allowed-canonical :
    (U : Unicode) (command n : Text)
    → check_command_allowed U command ≡ ok n
    → (contains allowed_commands n ≡ true) × (strip n ≡ n) × (check_command_allowed U n ≡ ok n)
check_command_allowed-canonical U command n h =
    let listed = accepted-listed U command n h in
    let normal = contains-normal allowed_commands n allowed_commands-normal listed in
    (listed, ground (arith, normal), normalized-allowed U n listed)

-- Commands that write, delete, configure, script, replicate or stop the server, and no command.
abbrev pub unsafe_commands : List Text
unsafe_commands =
    codes "SET"
    ∷ codes "DEL"
    ∷ codes "UNLINK"
    ∷ codes "FLUSHALL"
    ∷ codes "FLUSHDB"
    ∷ codes "CONFIG"
    ∷ codes "SHUTDOWN"
    ∷ codes "EVAL"
    ∷ codes "EVALSHA"
    ∷ codes "SCRIPT"
    ∷ codes "XADD"
    ∷ codes "XTRIM"
    ∷ codes "XDEL"
    ∷ codes "LPOP"
    ∷ codes "BLPOP"
    ∷ codes "RPUSH"
    ∷ codes "LPUSH"
    ∷ codes "SADD"
    ∷ codes "SREM"
    ∷ codes "HSET"
    ∷ codes "EXPIRE"
    ∷ codes "RENAME"
    ∷ codes "REPLICAOF"
    ∷ codes "SLAVEOF"
    ∷ codes "CLUSTER"
    ∷ codes "DEBUG"
    ∷ codes "MIGRATE"
    ∷ codes "RESTORE"
    ∷ codes "MODULE"
    ∷ codes "ACL"
    ∷ codes "GETDEL"
    ∷ codes ""
    ∷ []

abbrev none_in : List Text → List Text → Bool
none_in xs [] = true
none_in xs (y ∷ ys) = (if contains xs y then false else true) && none_in xs ys

unsafe_commands-none_in : none_in allowed_commands unsafe_commands ≡ true
unfolding allowed_commands text_discrete
unsafe_commands-none_in = refl

none_in-contains :
    (xs ys : List Text) (a : Text)
    → none_in xs ys ≡ true
    → contains ys a ≡ true
    → contains xs a ≡ false
none_in-contains xs [] a h c = cc
none_in-contains xs (y ∷ ys) a h c = ground (arith, none_in-contains xs ys a)

-- A command that is one of `unsafe_commands` (SET, DEL, FLUSHALL, CONFIG, SHUTDOWN, EVAL, ..., or
-- empty) once it is stripped and upper-cased is refused.
pub check_command_allowed-refuses :
    (U : Unicode) (command : Text)
    → contains unsafe_commands (U.upper (strip command)) ≡ true
    → check_command_allowed U command ≡ err command_not_allowed
unfolding check_command_allowed
check_command_allowed-refuses U command h = ground (
  arith,
  none_in-contains allowed_commands unsafe_commands (U.upper (strip command))
      unsafe_commands-none_in h,
)

lstrip-spaces : (a s : Text) → All (λ c. is_space c ≡ true) a → lstrip (a ++ s) ≡ lstrip s
unfolding lstrip
lstrip-spaces [] s h = refl
lstrip-spaces (c ∷ a) s (h, hs) = ground (arith, h, lstrip-spaces a s hs)

rstrip-spaces : (s a : Text) → All (λ c. is_space c ≡ true) a → rstrip (s ++ a) ≡ rstrip s
unfolding rstrip
rstrip-spaces [] [] h = refl
rstrip-spaces [] (c ∷ a) (h, hs) = ground (arith, h, rstrip-spaces [] a hs)
rstrip-spaces (c ∷ s) a h = ground (arith, rstrip-spaces s a h)

rstrip-lstrip-spaces :
    (s a : Text) → All (λ c. is_space c ≡ true) a → rstrip (lstrip (s ++ a)) ≡ rstrip (lstrip s)
unfolding lstrip
rstrip-lstrip-spaces [] [] h = refl
rstrip-lstrip-spaces [] (c ∷ a) (h, hs) = ground (arith, h, rstrip-lstrip-spaces [] a hs)
rstrip-lstrip-spaces (c ∷ s) a h =
    ground (arith, rstrip-lstrip-spaces s a h, rstrip-spaces (c ∷ s) a h)

-- Space around a command changes nothing, whether the command is accepted or refused.
pub check_command_allowed-padded :
    (U : Unicode) (a command b : Text)
    → All (λ c. is_space c ≡ true) a
    → All (λ c. is_space c ≡ true) b
    → check_command_allowed U (a ++ (command ++ b)) ≡ check_command_allowed U command
unfolding check_command_allowed strip
check_command_allowed-padded U a command b ha hb =
    ground (arith, lstrip-spaces a (command ++ b) ha, rstrip-lstrip-spaces command b hb)
