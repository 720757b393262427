-- ===== src/Listener/ContainerListener/Samples.antt =====
-- A line with a plain payload, one without a timestamp, and one with a JSON payload.
use log_sump.Base.{◌≡◌, refl, none, some, List, [], ◌∷◌, map, if◌then◌else◌}
use log_sump.Base.Text.{codes, text_discrete, ◌==◌}
use log_sump.Base.Dict.{lookup, insert, erase}
use log_sump.Common.Schema.{str, obj, field, end, stdout, stderr, LogRecord}
use log_sump.Server.Samples.{utc}
use log_sump.Listener.Samples.{show_json}
use log_sump.Common.Transport.{StreamLine}
use log_sump.Listener.ContainerListener.{
  Library, partition_space, replace_z, parse_line, listen, run_container_listener,
  try_parse_json_object,
}
use log_sump.Listener.ContainerListener.Lines.{IsRecordOf, parse_line-IsRecordOf}
use log_sump.Listener.ContainerListener.Numbering.{Numbered, run_container_listener-Numbered}

abbrev lib : Library
lib = record {
  fromisoformat = λ s. if s == codes "1+00:00" then some (utc 1) else none;
  json_loads = λ s.
      if s == codes "J" then some (obj (field (codes "level") (str (codes "warn")) end)) else none;
  show = show_json;
  show_str = λ s. refl;
}

abbrev lines : List StreamLine
lines =
    record { stream = stdout; text = codes "1Z up" }
    ∷ record { stream = stderr; text = codes "?" }
    ∷ record { stream = stdout; text = codes "1Z J" }
    ∷ []

levels_test :
    map (λ r. r.level) (run_container_listener lib (codes "h") (codes "a") (codes "web") lines)
    ≡ codes "info" ∷ codes "warn" ∷ []
unfolding run_container_listener listen parse_line partition_space replace_z text_discrete lookup
    insert erase try_parse_json_object
levels_test = refl

dated_test : lib.fromisoformat (replace_z (codes "1Z")) ≡ some (utc 1)
unfolding replace_z text_discrete
dated_test = refl

parse_line-IsRecordOf_example :
    (r : LogRecord) × (parse_line lib
        (codes "h")
        (codes "a")
        (codes "web")
        (record { stream = stdout; text = codes "1Z up" })
        7
      ≡ some r)
    × IsRecordOf lib (record { stream = stdout; text = codes "1Z up" }) (codes "up") (utc 1) 7 r
parse_line-IsRecordOf_example =
    parse_line-IsRecordOf lib (codes "h") (codes "a") (codes "web") (codes "1Z") (codes "up") stdout
      (utc 1) 7 (refl, (refl, tt)) dated_test

run_container_listener-Numbered_example :
    Numbered 1 lines 1 (run_container_listener lib (codes "h") (codes "a") (codes "web") lines)
run_container_listener-Numbered_example =
    run_container_listener-Numbered lib (codes "h") (codes "a") (codes "web") lines
