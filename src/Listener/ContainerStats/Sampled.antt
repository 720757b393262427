-- ===== src/Listener/ContainerStats/Sampled.antt =====
-- A cycle of packages/log-sump-listener/src/log_sump_listener/container_stats.py whose rows all read.
use log_sump.Base.{
  ℕ, suc, ◌≡◌, refl, ap, ◌∙◌, inl, inr, true, Bool-cases, none, some, List, [], ◌∷◌, ◌++◌, map,
  filterb, All,
}
use log_sump.Base.Int.{pos, eq_ℤ}
use log_sump.Base.Text.{Text, codes, strip, truthy, contains, Unicode}
use log_sump.Base.Lines.{print_lines, IsLine, splitlines-print_lines}
use log_sump.Base.Numerals.{Ints}
use log_sump.Base.Dict.{keys}
use log_sump.Base.Errors.{ok}
use log_sump.Common.Schema.{Json, null, str, DateTime, MetricRecord}
use log_sump.Common.Transport.{check}
use log_sump.Listener.ContainerListener.{Library}
use log_sump.Listener.JsonLines.{get}
use log_sump.Listener.Registry.{Registry, state_for}
use log_sump.Listener.Units.{Numbers}
use log_sump.Listener.ContainerStats.{Log, parse_stats_line, stats_line, stats_lines, sample_once}

-- A line of output, the row it is read as, and the record of that row for a number.
pub record Row : Type 0 where
  pub line : Text
  pub row : Json
  pub id : Text
  pub metric : ℕ → MetricRecord

-- The log with a record for each row, numbered on.
abbrev pub logged : List Row → Log → Log
logged [] log = log
logged (r ∷ rows) log =
    logged rows (record { next = suc log.next; records = log.records ++ (r.metric log.next ∷ []) })

abbrev pub rows_known : List Text → List Row → List Row
rows_known known rows = filterb (λ r. contains known r.id) rows

abbrev pub known_to : Text → Registry → List Text
known_to host registry = keys (state_for host registry).containers

abbrev pub lines_of : List Row → List Text
lines_of rows = map (λ r. r.line) rows

module _ (lib : Library) (u : Unicode) (num : Numbers) (ints : Ints) (host : Text)
    (now : DateTime) where
  -- The line reads as the row, which has an identifier and gives a record for every number.
  abbrev pub Reads : Row → Type 0
  Reads r =
      IsLine r.line
      × (truthy (strip r.line) ≡ true)
      × (lib.json_loads (strip r.line) ≡ some r.row)
      × (get (codes "ID") null r.row ≡ ok (str r.id))
      × ((seq : ℕ) → parse_stats_line lib u num ints host r.row seq now ≡ ok (r.metric seq))

  stats_line-logged :
      (known : List Text) (r : Row) (log : Log)
      → Reads r
      → stats_line lib u num ints host now known (strip r.line) log
        ≡ (none, logged (rows_known known (r ∷ [])) log)
  unfolding stats_line
  stats_line-logged known r log (a, b, c, d, e) = elim (Bool-cases (contains known r.id)) [
    | inl h ↦ rw b (rw c (rw d (rw h (rw (e log.next) refl))))
    | inr h ↦ rw b (rw c (rw d (rw h refl)))
  ]

  stats_lines-logged :
      (known : List Text) (rows : List Row) (log : Log)
      → All Reads rows
      → stats_lines lib u num ints host now known (lines_of rows) log
        ≡ (none, logged (rows_known known rows) log)
  unfolding stats_lines
  stats_lines-logged known [] log h = refl
  stats_lines-logged known (r ∷ rows) log (h, hs) = elim (Bool-cases (contains known r.id)) [
    | inl k ↦ rw (stats_line-logged known r log h) (rw k (stats_lines-logged known rows _ hs))
    | inr k ↦ rw (stats_line-logged known r log h) (rw k (stats_lines-logged known rows log hs))
  ]

  rows_lines : (rows : List Row) → All Reads rows → All IsLine (lines_of rows)
  rows_lines [] h = tt
  rows_lines (r ∷ rows) (h, hs) = (h.0, rows_lines rows hs)

  -- Where every line of the command's output reads, the cycle returns, and has logged one record for
  -- each row of a container that the registry knows, in their order and numbered on from the counter,
  -- and none for the others.
  pub sample_once-logged :
      (registry : Registry) (rows : List Row) (stderr : Text) (log : Log)
      → All Reads rows
      → sample_once lib u num ints host now registry
          (ok
            (record { returncode = pos 0; stdout = print_lines (lines_of rows); stderr = stderr }))
          log
        ≡ (none, logged (rows_known (known_to host registry) rows) log)
  unfolding sample_once check eq_ℤ
  sample_once-logged registry rows stderr log h =
      ap (λ l. stats_lines lib u num ints host now (known_to host registry) l log)
        (splitlines-print_lines (lines_of rows) (rows_lines rows h))
      ∙ stats_lines-logged (known_to host registry) rows log h
