-- ===== src/Server/Queries/Filters.antt =====
-- The filters of packages/log-sump-server/src/log_sump_server/queries.py, against one predicate.
use log_sump.Base.{
  ◌≡◌, refl, sym, ap, ◌∙◌, Bool, true, false, ◌&&◌, Option, none, some, List, [], filterb,
  filterb_ext, filterb-true, filterb-filterb,
}
use log_sump.Base.Text.{Text, ◌==◌, Unicode, has_text}
use log_sump.Common.Schema.{Record, log_record, metric_record, container_id_of}
use log_sump.Server.Queries.{apply_filters, filter_if, has_level, has_message}

-- The three conditions, each met by every record where it is not given.
abbrev pub in_container : Option Text → Record → Bool
in_container none r = true
in_container (some c) r = container_id_of r == c

abbrev pub at_level : Option Text → Record → Bool
at_level none r = true
at_level (some l) (log_record r) = r.level == l
at_level (some l) (metric_record r) = false

abbrev pub mentions : Unicode → Option Text → Record → Bool
mentions u none r = true
mentions u (some q) (log_record r) = has_text (u.lower q) (u.lower r.message)
mentions u (some q) (metric_record r) = has_text (u.lower q) (u.lower [])

abbrev pub passes : Unicode → (container_id level q : Option Text) → Record → Bool
passes u container_id level q r =
    in_container container_id r && (at_level level r && mentions u q r)

by_container :
    (c : Option Text) (rs : List Record)
    → filter_if c (λ c' r. container_id_of r == c') rs ≡ filterb (in_container c) rs
by_container none rs = sym (filterb-true rs)
by_container (some c) rs = refl

by_level : (l : Option Text) (rs : List Record) → filter_if l has_level rs ≡ filterb (at_level l) rs
by_level none rs = sym (filterb-true rs)
by_level (some l) rs =
    filterb_ext (has_level l) (at_level (some l)) rs
      (elim [ log_record r ↦ refl | metric_record r ↦ refl ])

by_message :
    (u : Unicode) (q : Option Text) (rs : List Record)
    → filter_if q (λ text. has_message u (u.lower text)) rs ≡ filterb (mentions u q) rs
by_message u none rs = sym (filterb-true rs)
by_message u (some q) rs =
    filterb_ext (has_message u (u.lower q)) (mentions u (some q)) rs
      (elim [ log_record r ↦ refl | metric_record r ↦ refl ])

-- What is kept is what meets every condition that is given: a metric meets no level, and is searched
-- as an empty message.
pub apply_filters_lem :
    (u : Unicode) (container_id level q : Option Text) (records : List Record)
    → apply_filters u records container_id level q ≡ filterb (passes u container_id level q) records
unfolding apply_filters
apply_filters_lem u container_id level q records =
    by_message u q _
    ∙ ap (filterb (mentions u q))
        (by_level level _ ∙ ap (filterb (at_level level)) (by_container container_id records))
    ∙ filterb-filterb (mentions u q) (at_level level) _
    ∙ filterb-filterb _ (in_container container_id) records
