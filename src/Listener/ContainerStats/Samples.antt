-- ===== src/Listener/ContainerStats/Samples.antt =====
-- Two cycles over a registry that knows one container of the two that are printed, and one that fails.
use log_sump.Base.{◌≡◌, refl, some, none, true, List, [], ◌∷◌, map, if◌then◌else◌}
use log_sump.Base.Int.{pos, eq_ℤ}
use log_sump.Base.Text.{Text, codes, ◌==◌, text_discrete, ascii_only, strip, lstrip, rstrip}
use log_sump.Base.Lines.{splitlines, print_lines}
use log_sump.Base.Words.{partition_at}
use log_sump.Base.Numerals.{ascii_ints}
use log_sump.Base.Dict.{lookup, insert}
use log_sump.Base.Errors.{ok, err, transport_error}
use log_sump.Common.Schema.{Json, str, obj, field, end}
use log_sump.Common.Transport.{check}
use log_sump.Server.Samples.{utc}
use log_sump.Listener.ContainerListener.{Library}
use log_sump.Listener.Samples.{show_json}
use log_sump.Listener.Registry.{Registry, state_for}
use log_sump.Listener.Units.{parse_pair_bytes, parse_percent}
use log_sump.Listener.Samples.{numbers}
use log_sump.Listener.ContainerStats.{
  Cycle, stats_record, run_container_stats, stats_cycles, stats_cycle, sample_once, stats_lines,
  stats_line, parse_stats_line,
}
use log_sump.Listener.ContainerStats.Sampled.{Row, Reads, logged, lines_of, sample_once-logged}
use log_sump.Listener.ContainerStats.Ascending.{IsLogOf, run_container_stats-IsLogOf}

abbrev row_of : Text → Json
row_of id = obj (
    field (codes "ID") (str id)
      (field (codes "Name") (str (codes "web")) (field (codes "PIDs") (str (codes "7")) end)))

-- Reads `W` and `V` as the rows of two containers.
abbrev lib : Library
lib = record {
  fromisoformat = λ s. none;
  json_loads = λ s.
      if s == codes "W"
      then some (row_of (codes "a"))
      else if s == codes "V"
      then some (row_of (codes "b"))
      else none;
  show = show_json;
  show_str = λ s. refl;
}

abbrev known : Registry
known = record {
  daemons =
      (
        codes "h",
        record {
          listing_seq = 1;
          containers =
              (
                codes "a",
                record {
                  ref = record { container_id = codes "a"; container_name = codes "web" };
                  last_seen_seq = 1;
                },
              )
              ∷ [];
        },
      )
      ∷ [];
  notifies = true;
}

abbrev printed : Text → Cycle
printed stdout = record {
  now = utc 1;
  registry = known;
  ran = ok (record { returncode = pos 0; stdout = stdout; stderr = [] });
}

abbrev cycles : List Cycle
cycles =
    printed (codes "V\nW\n?\nW")
    ∷ record { now = utc 2; registry = known; ran = err transport_error }
    ∷ printed (codes "W")
    ∷ []

numbers_test :
    map
      (λ r. r.base.seq)
      (run_container_stats lib ascii_only numbers ascii_ints (codes "h") cycles).1.records
    ≡ pos 1 ∷ pos 2 ∷ []
unfolding run_container_stats stats_cycles stats_cycle sample_once stats_lines stats_line
    parse_stats_line parse_pair_bytes parse_percent partition_at check eq_ℤ splitlines strip lstrip
    rstrip text_discrete lookup insert state_for
numbers_test = refl

run_container_stats-IsLogOf_example :
    IsLogOf lib ascii_only numbers ascii_ints
      (codes "h")
      cycles
      (run_container_stats lib ascii_only numbers ascii_ints (codes "h") cycles)
run_container_stats-IsLogOf_example =
    run_container_stats-IsLogOf lib ascii_only numbers ascii_ints (codes "h") cycles

-- What the row of a container gives.
abbrev row_as : Text → Text → Row
row_as line id = record {
  line = line;
  row = row_of id;
  id = id;
  metric = λ seq.
      stats_record lib ascii_only numbers ascii_ints (codes "h") (row_of id) seq (utc 1)
        (codes "web") id (none, none) (none, none) (none, none) none none (str (codes "7"));
}

rows-Reads :
    Reads lib ascii_only numbers ascii_ints (codes "h") (utc 1) (row_as (codes "W ") (codes "a"))
    × Reads lib ascii_only numbers ascii_ints (codes "h") (utc 1) (row_as (codes "V") (codes "b"))
unfolding parse_stats_line parse_pair_bytes parse_percent partition_at strip lstrip rstrip
    text_discrete lookup insert
rows-Reads = (
  ((refl, (refl, tt)), refl, refl, refl, λ seq. refl),
  ((refl, tt), refl, refl, refl, λ seq. refl),
)

sample_once-logged_example :
    sample_once lib ascii_only numbers ascii_ints
      (codes "h")
      (utc 1)
      known
      (ok (record {
        returncode = pos 0;
        stdout =
            print_lines
              (lines_of (row_as (codes "V") (codes "b") ∷ row_as (codes "W ") (codes "a") ∷ []));
        stderr = [];
      }))
      (record { next = 4; records = [] })
    ≡ (none, logged (row_as (codes "W ") (codes "a") ∷ []) (record { next = 4; records = [] }))
unfolding lookup state_for text_discrete
sample_once-logged_example =
    sample_once-logged lib ascii_only numbers ascii_ints (codes "h") (utc 1) known
      (row_as (codes "V") (codes "b") ∷ row_as (codes "W ") (codes "a") ∷ []) []
      (record { next = 4; records = [] }) (rows-Reads.1, (rows-Reads.0, tt))
