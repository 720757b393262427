-- ===== src/Listener/SystemStats/DiskUsage.antt =====
-- `docker system df`, in packages/log-sump-listener/src/log_sump_listener/system_stats.py.
pub mod Outcome
pub mod Table
mod Samples
use log_sump.Base.{Bool, true, false, not, Option, none, some, List, [], ◌∷◌, if◌then◌else◌}
use log_sump.Base.Int.{ℤ, pos, eq_ℤ}
use log_sump.Base.Text.{Text, codes, strip, truthy, Unicode}
use log_sump.Base.Lines.{splitlines}
use log_sump.Base.Words.{partition}
use log_sump.Base.Errors.{Result, ok, err, ◌>>=◌, type_error, is_transport_or_value_error}
use log_sump.Common.Schema.{Json, null, boolean, int, float, str, arr, obj, nil, cons, end, field}
use log_sump.Common.Config.{float_truthy}
use log_sump.Common.Transport.{ExecResult, check}
use log_sump.Listener.ContainerListener.{Library}
use log_sump.Listener.JsonLines.{get, get_text}
use log_sump.Listener.Units.{Numbers, parse_bytes}

abbrev pub df_command : List Text
df_command =
    codes "docker" ∷ codes "system" ∷ codes "df" ∷ codes "--format" ∷ codes "{{json .}}" ∷ []

-- bool(value)
abbrev pub truthy_value : Json → Bool
truthy_value null = false
truthy_value (boolean b) = b
truthy_value (int n) = not (eq_ℤ n (pos 0))
truthy_value (float x) = float_truthy x
truthy_value (str s) = truthy s
truthy_value (arr nil) = false
truthy_value (arr (cons v items)) = true
truthy_value (obj end) = false
truthy_value (obj (field k v fields)) = true

abbrev pub is_hashable : Json → Bool
is_hashable (arr items) = false
is_hashable (obj fields) = false
is_hashable _ = true

pub record Usage : Type 0 where
  pub total : Json
  pub active : Json
  pub size_bytes : Option ℤ
  pub reclaimable_bytes : Option ℤ
  pub raw : Json

abbrev pub Rows : Type 0
Rows = List (Json × Usage)

-- rows or None
abbrev or_none : Rows → Option Rows
or_none [] = none
or_none (r ∷ rows) = some (r ∷ rows)

-- `same_key` is the equality of two keys of a dict.
module _ (same_key : Json → Json → Bool) where
  -- rows[row_type] = usage
  unfoldable pub set_row : Json → Usage → Rows → Rows
  set_row k v [] = (k, v) ∷ []
  set_row k v ((j, w) ∷ rows) = if same_key k j then (j, v) ∷ rows else (j, w) ∷ set_row k v rows

  module _ (lib : Library) (u : Unicode) (num : Numbers) where
    -- text.split("(")[0].strip()
    unfoldable pub parse_reclaimable : Text → Result (Option ℤ)
    parse_reclaimable text = parse_bytes u num (strip (partition b'(' text).0)

    abbrev pub usage_of : Json → Result Usage
    usage_of row = get (codes "TotalCount") null row >>= λ total.
        get (codes "Active") null row >>= λ active. get_text lib (codes "Size") row >>= λ size.
        parse_bytes u num size >>= λ size_bytes.
        get_text lib (codes "Reclaimable") row >>= λ reclaimable.
        parse_reclaimable reclaimable >>= λ reclaimable_bytes. ok (record {
          total = total;
          active = active;
          size_bytes = size_bytes;
          reclaimable_bytes = reclaimable_bytes;
          raw = row;
        })

    -- The value is made before the key is hashed.
    abbrev add_row : Json → Json → Rows → Result Rows
    add_row row_type row rows =
        if truthy_value row_type
        then (usage_of row >>= λ usage.
            if is_hashable row_type then ok (set_row row_type usage rows) else err type_error)
        else ok rows

    abbrev df_value : Option Json → Rows → Result Rows
    df_value none rows = ok rows
    df_value (some row) rows = get (codes "Type") null row >>= λ row_type. add_row row_type row rows

    -- One line, stripped.
    unfoldable pub df_line : Rows → Text → Result Rows
    df_line rows line = if truthy line then df_value (lib.json_loads line) rows else ok rows

    unfoldable pub df_lines : Rows → List Text → Result Rows
    df_lines rows [] = ok rows
    df_lines rows (line ∷ lines) = df_line rows (strip line) >>= λ rows'. df_lines rows' lines

    abbrev pub df_result : Result ExecResult → Result (Option Rows)
    df_result (err e) = if is_transport_or_value_error e then ok none else err e
    df_result (ok result) = df_lines [] (splitlines result.stdout) >>= λ rows. ok (or_none rows)

    -- `ran` is what transport.run returns or raises.
    unfoldable pub try_sample_docker_disk_usage : Result ExecResult → Result (Option Rows)
    try_sample_docker_disk_usage ran = df_result (ran >>= λ result. check result)
