-- ===== src/Server/Records/Sort.antt =====
-- The sort by time in packages/log-sump-server/src/log_sump_server/routers/records.py.
use log_sump.Base.{Bool, not, List, [], ◌∷◌, leb, if◌then◌else◌}
use log_sump.Base.Errors.{Result, ok, err, ◌>>=◌, type_error}
use log_sump.Common.Schema.{DateTime, Record, ts_of}

-- a <= b: Python refuses to compare a datetime that has a time zone with one that has none.
abbrev pub not_later : DateTime → DateTime → Result Bool
not_later a b =
    if (if a.aware then b.aware else not b.aware)
    then ok (leb a.micros b.micros)
    else err type_error

-- Before the first record that is not earlier.
unfoldable pub insert_by_ts : Record → List Record → Result (List Record)
insert_by_ts r [] = ok (r ∷ [])
insert_by_ts r (x ∷ xs) =
    let rest = insert_by_ts r xs in
    not_later (ts_of r) (ts_of x) >>= λ first.
    if first then ok (r ∷ x ∷ xs) else (rest >>= λ sorted. ok (x ∷ sorted))

-- records.sort(key=lambda r: r.ts), which is stable
unfoldable pub sorted_by_ts : List Record → Result (List Record)
sorted_by_ts [] = ok []
sorted_by_ts (r ∷ rs) = sorted_by_ts rs >>= λ sorted. insert_by_ts r sorted
