-- ===== src/Listener/JsonLines.antt =====
-- What the modules of packages/log-sump-listener/src/log_sump_listener do with the output of a Docker
-- command that prints one JSON object in each line.
use log_sump.Base.{Option, none, some, []}
use log_sump.Base.Text.{Text}
use log_sump.Base.Dict.{lookup}
use log_sump.Base.Errors.{Result, ok, err, ◌>>=◌, attribute_error, type_error, key_error}
use log_sump.Common.Schema.{Json, str}
use log_sump.Listener.ContainerListener.{Library, dict_of}

abbrev pub value_or : Json → Option Json → Json
value_or default none = default
value_or default (some v) = v

-- data.get(key, default); what is no dict has no such method.
abbrev pub get : Text → Json → Json → Result Json
get key default row = elim (dict_of row) [
  | none ↦ err attribute_error
  | some d ↦ ok (value_or default (lookup key d))
]

-- str(data.get(key, ""))
abbrev pub get_text : Library → Text → Json → Result Text
get_text lib key row = get key (str []) row >>= λ v. ok (lib.show v)

-- data[key], for a text as the value. No other type of value is modelled but as a TypeError.
abbrev text_value : Option Json → Result Text
text_value none = err key_error
text_value (some (str s)) = ok s
text_value (some _) = err type_error

abbrev pub item : Text → Json → Result Text
item key row = elim (dict_of row) [ none ↦ err type_error | some d ↦ text_value (lookup key d) ]
