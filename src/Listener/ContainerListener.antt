-- ===== src/Listener/ContainerListener.antt =====
-- packages/log-sump-listener/src/log_sump_listener/container_listener.py: from the lines of
-- `docker logs -f --timestamps` to log records.
pub mod Lines
pub mod Numbering
mod Samples
use log_sump.Base.{
  ℕ, zero, suc, ◌+◌, Bool, true, false, Option, none, some, List, [], ◌∷◌, ◌++◌, if◌then◌else◌,
  nat_eq, ◌≡◌,
}
use log_sump.Base.Int.{ℤ, pos}
use log_sump.Base.Text.{Text, codes}
use log_sump.Base.Dict.{Dict, lookup, insert, erase}
use log_sump.Common.Transport.{StreamLine}
use log_sump.Common.Schema.{
  Json, null, boolean, int, float, str, arr, obj, Fields, end, field, DateTime, StreamName,
  LogRecord,
}

-- What is used of Python's library: `fromisoformat` is `none` where datetime.fromisoformat raises
-- ValueError, `json_loads` where json.loads does; `show` is str(), which leaves a text as it is.
pub record Library : Type 0 where
  pub fromisoformat : Text → Option DateTime
  pub json_loads : Text → Option Json
  pub show : Json → Text
  pub show_str : (s : Text) → show (str s) ≡ s

abbrev pub default_level : Text
default_level = codes "info"

-- line.text.partition(" "), without the separator
unfoldable pub partition_space : Text → Text × Text
partition_space [] = ([], [])
partition_space (c ∷ s) =
    let (before, after) = partition_space s in
    if nat_eq c b' ' then ([], s) else (c ∷ before, after)

-- ts_str.replace("Z", "+00:00")
unfoldable pub replace_z : Text → Text
replace_z [] = []
replace_z (c ∷ s) = if nat_eq c b'Z' then codes "+00:00" ++ replace_z s else c ∷ replace_z s

-- The items of a parsed object, as a dictionary: a key that comes again takes its last value.
abbrev pub fill : Dict Json → Fields → Dict Json
fill d end = d
fill d (field k v fields) = fill (insert k v d) fields

abbrev pub dict_of : Json → Option (Dict Json)
dict_of (obj fields) = some (fill [] fields)
dict_of null = none
dict_of (boolean b) = none
dict_of (int n) = none
dict_of (float x) = none
dict_of (str s) = none
dict_of (arr items) = none

module _ (lib : Library) where
  unfoldable pub try_parse_json_object : Text → Option (Dict Json)
  try_parse_json_object payload = elim (lib.json_loads payload) [
    | none ↦ none
    | some parsed ↦ dict_of parsed
  ]

  -- str(fields.pop(key, default)), where `default` is a text
  abbrev popped : Text → Text → Dict Json → Text
  popped key default fields = elim (lookup key fields) [ none ↦ default | some v ↦ lib.show v ]

  -- What a payload gives: its level, its message and its other fields.
  abbrev pub content : Text → Option (Dict Json) → Text × Text × Dict Json
  content payload none = (default_level, payload, [])
  content payload (some fields) =
      let rest = erase (codes "message") fields in
      (
        popped (codes "level") default_level rest,
        popped (codes "message") payload fields,
        erase (codes "level") rest,
      )

  abbrev pub record_of : Text → Text → Text → StreamLine → ℕ → DateTime → Text → LogRecord
  record_of docker_host container_id container_name line seq ts payload =
      let (level, message, fields) = content payload (try_parse_json_object payload) in
      record {
        base = record {
          docker_host = docker_host;
          container_name = container_name;
          container_id = container_id;
          ts = ts;
          seq = pos seq;
        };
        stream = line.stream;
        level = level;
        message = message;
        fields = fields;
        raw = line.text;
      }

  -- The line's record, where it has a time.
  abbrev pub dated : Text → Text → Text → StreamLine → ℕ → Option DateTime → Text → Option LogRecord
  dated docker_host container_id container_name line seq none payload = none
  dated docker_host container_id container_name line seq (some ts) payload =
      some (record_of docker_host container_id container_name line seq ts payload)

  -- `none` for a line without a timestamp.
  unfoldable pub parse_line : Text → Text → Text → StreamLine → ℕ → Option LogRecord
  parse_line docker_host container_id container_name line seq =
      let (ts_str, payload) = partition_space line.text in
      dated docker_host container_id container_name line seq (lib.fromisoformat (replace_z ts_str))
        payload

  abbrev pub ship : Option LogRecord → List LogRecord → List LogRecord
  ship none records = records
  ship (some r) records = r ∷ records

  -- The loop over the lines from a value of the counter on: the records that are logged.
  unfoldable pub listen : Text → Text → Text → ℕ → List StreamLine → List LogRecord
  listen docker_host container_id container_name seq [] = []
  listen docker_host container_id container_name seq (line ∷ lines) =
      ship (parse_line docker_host container_id container_name line seq)
        (listen docker_host container_id container_name (suc seq) lines)

  -- itertools.count(1)
  unfoldable pub run_container_listener : Text → Text → Text → List StreamLine → List LogRecord
  run_container_listener docker_host container_id container_name lines =
      listen docker_host container_id container_name 1 lines
