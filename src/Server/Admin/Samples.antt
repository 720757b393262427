-- ===== src/Server/Admin/Samples.antt =====
-- Two servers that differ on FLUSHALL, and a reply with bytes in it.
use log_sump.Base.{◌≡◌, refl, true, some, List, [], ◌∷◌, if◌then◌else◌}
use log_sump.Base.Text.{Text, Bytes, codes, bytes, text, contains, ascii_only, text_discrete}
use log_sump.Base.Errors.{ok}
use log_sump.Common.Redis.Memory.{Store, empty_store, memory}
use log_sump.Server.Samples.{codec}
use log_sump.Server.Inspect.{allowed_commands}
use log_sump.Server.Admin.{
  Reply, nil, str, dict, pair, done, decode, RedisCommandRequest, Execute, run_redis_command,
}
use log_sump.Server.Admin.Confined.{run_redis_command-confined}

abbrev lenient : Bytes → Text
lenient b = b

abbrev hash : Text → Text
hash key = codes "0"

abbrev store : Store
store = record empty_store { sets = λ k. bytes (codes "k") ∷ [] }

abbrev run : Execute memory codec hash ascii_only lenient
run c words s = (ok (str (bytes (codes "v"))), s)

abbrev flushed : Execute memory codec hash ascii_only lenient
flushed c words s = (ok nil, empty_store)

-- Empties the store on any command that is not allowed.
abbrev other : Execute memory codec hash ascii_only lenient
other c words s = (if contains allowed_commands c then run else flushed) c words s

run-other :
    (c : Text) (words : List Text)
    → contains allowed_commands c ≡ true
    → (s : Store) → run c words s ≡ other c words s
run-other c words h s = rw h refl

abbrev body : RedisCommandRequest
body = record { command = codes "get"; args = codes "x" ∷ [] }

run_redis_command-confined_example :
    run_redis_command memory codec hash ascii_only lenient run (some (codes "secret")) body store
    ≡ run_redis_command memory codec hash ascii_only lenient other
        (some (codes "secret"))
        body
        store
run_redis_command-confined_example =
    run_redis_command-confined memory codec hash ascii_only lenient run other run-other
      (some (codes "secret")) body store

abbrev answer : Reply
answer =
    dict (pair (bytes (codes "a")) (str (bytes (codes "v"))) (pair (text (codes "a")) nil done))

answer_test : decode lenient answer ≡ dict (pair (text (codes "a")) nil done)
unfolding decode text_discrete
answer_test = refl
