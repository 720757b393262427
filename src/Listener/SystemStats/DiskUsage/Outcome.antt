-- ===== src/Listener/SystemStats/DiskUsage/Outcome.antt =====
-- The table that packages/log-sump-listener/src/log_sump_listener/system_stats.py makes of the output
-- of `docker system df`.
use log_sump.Base.{
  ◌≡◌, refl, sym, ap, subst, ◌∙◌, inl, inr, Bool, Option, none, some, List, [], ◌∷◌, ◌++◌,
  if◌then◌else◌, Bool-cases, arith,
}
use log_sump.Base.Text.{Text, codes, strip, truthy, Unicode}
use log_sump.Base.Lines.{splitlines}
use log_sump.Base.Errors.{Result, ok, err, ◌>>=◌, type_error, Result-cases}
use log_sump.Common.Schema.{Json, null}
use log_sump.Common.Transport.{ExecResult, check}
use log_sump.Listener.ContainerListener.{Library}
use log_sump.Listener.JsonLines.{get}
use log_sump.Listener.Units.{Numbers}
use log_sump.Listener.SystemStats.DiskUsage.Table.{
  IsKeyEquality, IsTable, set_rows, set_rows-append, set_rows-cons, set_rows-IsTable,
}
use log_sump.Listener.SystemStats.DiskUsage.{
  Rows, truthy_value, is_hashable, or_none, set_row, usage_of, add_row, df_value, df_line, df_lines,
  try_sample_docker_disk_usage,
}

module _ (same_key : Json → Json → Bool) where
  module _ (lib : Library) (u : Unicode) (num : Numbers) where
    -- A row that is read: none where it has no type; it raises where its figures do not read or its
    -- type is no key.
    abbrev typed : Json → Json → Result Rows
    typed row_type row =
        if truthy_value row_type
        then (usage_of same_key lib u num row >>= λ usage.
            if is_hashable row_type then ok ((row_type, usage) ∷ []) else err type_error)
        else ok []

    abbrev loaded : Option Json → Result Rows
    loaded none = ok []
    loaded (some row) = get (codes "Type") null row >>= λ row_type. typed row_type row

    abbrev pub reading : Text → Result Rows
    reading line = if truthy line then loaded (lib.json_loads line) else ok []

    -- What the lines give, in their order, or what the first of them that raises does.
    abbrev pub readings : List Text → Result Rows
    readings [] = ok []
    readings (line ∷ lines) =
        reading (strip line) >>= λ first. readings lines >>= λ further. ok (first ++ further)

    typed_lem :
        (row_type row : Json) (rows : Rows)
        → add_row same_key lib u num row_type row rows
          ≡ (typed row_type row >>= λ read. ok (set_rows same_key rows read))
    typed_lem row_type row rows =
        ground (
          arith,
          Bool-cases (truthy_value row_type),
          Result-cases (usage_of same_key lib u num row),
        )

    loaded_lem :
        (o : Option Json) (rows : Rows)
        → df_value same_key lib u num o rows
          ≡ (loaded o >>= λ read. ok (set_rows same_key rows read))
    loaded_lem none rows = refl
    loaded_lem (some row) rows = elim (Result-cases (get (codes "Type") null row)) [
      | inl (row_type, k) ↦ rw k (typed_lem row_type row rows)
      | inr (e, k) ↦ rw k refl
    ]

    line_lem :
        (rows : Rows) (line : Text)
        → df_line same_key lib u num rows line
          ≡ (reading line >>= λ read. ok (set_rows same_key rows read))
    unfolding df_line
    line_lem rows line = elim (Bool-cases (truthy line)) [
      | inl k ↦ rw k (loaded_lem (lib.json_loads line) rows)
      | inr k ↦ rw k refl
    ]

    lines_lem :
        (rows : Rows) (lines : List Text)
        → df_lines same_key lib u num rows lines
          ≡ (readings lines >>= λ read. ok (set_rows same_key rows read))
    unfolding df_lines
    lines_lem rows [] = refl
    lines_lem rows (line ∷ lines) =
        ap (λ r. r >>= λ rows'. df_lines same_key lib u num rows' lines)
          (line_lem rows (strip line))
        ∙ elim (Result-cases (reading (strip line))) [
          | inl (first, k) ↦ rw k (
              lines_lem (set_rows same_key rows first) lines
              ∙ elim (Result-cases (readings lines)) [
                | inl (further, l) ↦
                    rw l (ap (λ r. ok r) (sym (set_rows-append same_key first further rows)))
                | inr (e, l) ↦ rw l refl
              ])
          | inr (e, k) ↦ rw k refl
        ]

    -- How the outcome of the command stands to what its lines give.
    abbrev pub IsOutcome : Result Rows → Result (Option Rows) → Type 0
    IsOutcome (err e) outcome = outcome ≡ err e
    IsOutcome (ok []) outcome = outcome ≡ ok none
    IsOutcome (ok (r ∷ read)) outcome =
        (rows : Rows) × (outcome ≡ ok (some rows)) × IsTable same_key (r ∷ read) rows

    outcome_lem :
        (laws : IsKeyEquality same_key) (read : Result Rows)
        → IsOutcome read (read >>= λ rows. ok (or_none (set_rows same_key [] rows)))
    unfolding set_row
    outcome_lem laws (err e) = refl
    outcome_lem laws (ok []) = refl
    outcome_lem laws (ok (r ∷ read)) =
        let (s, rest, e) = set_rows-cons same_key read r [] in
        (
          set_rows same_key [] (r ∷ read),
          ap (λ rows. ok (or_none rows)) e ∙ ap (λ rows. ok (some rows)) (sym e),
          set_rows-IsTable same_key laws (r ∷ read),
        )

    -- When the command succeeds, the outcome is a table with exactly one row for each type that the
    -- lines of its output give, which is what the last line of this type gives; it is none if no line
    -- gives a type; and the first line that raises ends it with what it raised.
    pub try_sample_docker_disk_usage-IsOutcome :
        (laws : IsKeyEquality same_key) (ran : ExecResult)
        → check ran ≡ ok ran
        → IsOutcome
            (readings (splitlines ran.stdout))
            (try_sample_docker_disk_usage same_key lib u num (ok ran))
    unfolding try_sample_docker_disk_usage
    try_sample_docker_disk_usage-IsOutcome laws ran h =
        let same : (readings (splitlines ran.stdout) >>= λ rows.
        ok (or_none (set_rows same_key [] rows)))
            ≡ try_sample_docker_disk_usage same_key lib u num (ok ran) =
          rw h (
            rw (lines_lem [] (splitlines ran.stdout))
              (elim (Result-cases (readings (splitlines ran.stdout))) [
                | inl (read, k) ↦ rw k refl
                | inr (e, k) ↦ rw k refl
              ])) in
        subst (IsOutcome (readings (splitlines ran.stdout))) same
          (outcome_lem laws (readings (splitlines ran.stdout)))
