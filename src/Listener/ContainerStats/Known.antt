-- ===== src/Listener/ContainerStats/Known.antt =====
-- The identifier of a record that packages/log-sump-listener/src/log_sump_listener/container_stats.py
-- makes of a line.
use log_sump.Base.{ℕ, ◌≡◌, refl, sym, ap, ◌∙◌, true, Option, none, some, List, [], arith}
use log_sump.Base.Int.{ℤ, pos}
use log_sump.Base.Text.{Text, codes, contains, Unicode}
use log_sump.Base.Numerals.{Ints}
use log_sump.Base.Dict.{Dict, lookup}
use log_sump.Base.Errors.{Result, ok, err, ◌>>=◌, OnOk}
use log_sump.Common.Schema.{
  Json, null, boolean, int, float, str, arr, obj, DateTime, Float, MetricRecord,
}
use log_sump.Listener.ContainerListener.{Library, dict_of}
use log_sump.Listener.JsonLines.{get, get_text, value_or}
use log_sump.Listener.Units.{Numbers}
use log_sump.Listener.ContainerStats.{
  is_known_id, stats_record, pair_of, percent_of, parse_stats_line,
}

module _ (lib : Library) (u : Unicode) (num : Numbers) (ints : Ints) where
  -- What a record has from its line.
  abbrev pub IsRead : Text → Json → ℕ → DateTime → MetricRecord → Type 0
  IsRead host row seq ts r =
      (r.base.docker_host ≡ host)
      × (r.base.seq ≡ pos seq)
      × (r.base.ts ≡ ts)
      × (get_text lib (codes "ID") row ≡ ok r.base.container_id)

  parts_IsRead :
      (host : Text) (row : Json) (seq : ℕ) (ts : DateTime)
      (mem net blk : Result (Option ℤ × Option ℤ)) (name id : Result Text)
      (cpu_pct mem_pct : Result (Option Float)) (pids : Result Json)
      → get_text lib (codes "ID") row ≡ id
      → OnOk (IsRead host row seq ts) (
          mem >>= λ mem. net >>= λ net. blk >>= λ blk. name >>= λ name. id >>= λ id.
          cpu_pct >>= λ cpu_pct. mem_pct >>= λ mem_pct. pids >>= λ pids.
          ok (stats_record lib u num ints host row seq ts name id mem net blk cpu_pct mem_pct pids))
  parts_IsRead host row seq ts (err e) net blk name id cpu pct pids h = tt
  parts_IsRead host row seq ts (ok a) (err e) blk name id cpu pct pids h = tt
  parts_IsRead host row seq ts (ok a) (ok b) (err e) name id cpu pct pids h = tt
  parts_IsRead host row seq ts (ok a) (ok b) (ok c) (err e) id cpu pct pids h = tt
  parts_IsRead host row seq ts (ok a) (ok b) (ok c) (ok d) (err e) cpu pct pids h = tt
  parts_IsRead host row seq ts (ok a) (ok b) (ok c) (ok d) (ok i) (err e) pct pids h = tt
  parts_IsRead host row seq ts (ok a) (ok b) (ok c) (ok d) (ok i) (ok f) (err e) pids h = tt
  parts_IsRead host row seq ts (ok a) (ok b) (ok c) (ok d) (ok i) (ok f) (ok g) (err e) h = tt
  parts_IsRead host row seq ts (ok a) (ok b) (ok c) (ok d) (ok i) (ok f) (ok g) (ok p) h =
      (refl, refl, refl, h)

  pub parse_stats_line-IsRead :
      (host : Text) (row : Json) (seq : ℕ) (ts : DateTime)
      → OnOk (IsRead host row seq ts) (parse_stats_line lib u num ints host row seq ts)
  unfolding parse_stats_line
  parse_stats_line-IsRead host row seq ts =
      parts_IsRead host row seq ts (pair_of lib u num ints (codes "MemUsage") row)
        (pair_of lib u num ints (codes "NetIO") row) (pair_of lib u num ints (codes "BlockIO") row)
        (get_text lib (codes "Name") row) (get_text lib (codes "ID") row)
        (percent_of lib u num ints (codes "CPUPerc") row)
        (percent_of lib u num ints (codes "MemPerc") row) (get (codes "PIDs") null row) refl

  -- An identifier that is known is a text, which str leaves as it is.
  known_text :
      (known : List Text) (v : Json)
      → is_known_id known v ≡ ok true
      → contains known (lib.show v) ≡ true
  known_text known null h = absurd (ground (arith, h))
  known_text known (boolean b) h = absurd (ground (arith, h))
  known_text known (int n) h = absurd (ground (arith, h))
  known_text known (float x) h = absurd (ground (arith, h))
  known_text known (str s) h = rw (lib.show_str s) (ground (arith, h))
  known_text known (arr items) h = absurd (ground (arith, h))
  known_text known (obj fields) h = absurd (ground (arith, h))

  known_value :
      (known : List Text) (v : Option Json) (id : Text)
      → is_known_id known (value_or null v) ≡ ok true
      → lib.show (value_or (str []) v) ≡ id
      → contains known id ≡ true
  known_value known none id h e = absurd (ground (arith, h))
  known_value known (some v) id h e = sym (ap (contains known) e) ∙ known_text known v h

  known_dict :
      (known : List Text) (row : Json) (id : Text) (items : Option (Dict Json))
      → dict_of row ≡ items
      → (get (codes "ID") null row >>= λ v. is_known_id known v) ≡ ok true
      → get_text lib (codes "ID") row ≡ ok id
      → contains known id ≡ true
  known_dict known row id none k h e = absurd (ground (arith, k, h))
  known_dict known row id (some d) k h e =
      known_value known (lookup (codes "ID") d) id (rw (get, k) at h)
        (ground (arith, rw (get, k) at e))

  pub known_lem :
      (known : List Text) (row : Json) (id : Text)
      → (get (codes "ID") null row >>= λ v. is_known_id known v) ≡ ok true
      → get_text lib (codes "ID") row ≡ ok id
      → contains known id ≡ true
  known_lem known row id h e = known_dict known row id (dict_of row) refl h e
