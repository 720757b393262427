-- ===== src/Listener/SystemStats/Sections.antt =====
-- The script that reads /proc and the split of its output, in
-- packages/log-sump-listener/src/log_sump_listener/system_stats.py.
pub mod Script
use log_sump.Base.{
  ◌≡◌, refl, ◌∙◌, ap, Bool, true, false, Option, none, some, List, [], ◌∷◌, ◌++◌, map,
  if◌then◌else◌, foldl, All, arith,
}
use log_sump.Base.Text.{Text, codes, contains}
use log_sump.Base.Lines.{splitlines, join_lines}
use log_sump.Base.Dict.{Dict, lookup, insert}

abbrev pub marker_stat : Text
marker_stat = codes "===STAT==="

abbrev pub marker_meminfo : Text
marker_meminfo = codes "===MEMINFO==="

abbrev pub marker_netdev : Text
marker_netdev = codes "===NETDEV==="

abbrev pub marker_diskstats : Text
marker_diskstats = codes "===DISKSTATS==="

abbrev pub proc_read_script : Text
proc_read_script =
    codes "echo "
    ++ (marker_stat
        ++ (codes "; cat /proc/stat; echo "
            ++ (marker_meminfo
                ++ (codes "; cat /proc/meminfo; echo "
                    ++ (marker_netdev
                        ++ (codes "; cat /proc/net/dev; echo "
                            ++ (marker_diskstats ++ codes "; cat /proc/diskstats")))))))

abbrev pub markers : List Text
markers = marker_stat ∷ marker_meminfo ∷ marker_netdev ∷ marker_diskstats ∷ []

-- The section that is being read, and the lines of each.
pub record Sections : Type 0 where
  pub current : Option Text
  pub sections : Dict (List Text)

-- sections[current].append(line)
abbrev append_line : Text → Text → Dict (List Text) → Dict (List Text)
append_line current line sections = elim (lookup current sections) [
  | none ↦ sections
  | some lines ↦ insert current (lines ++ (line ∷ [])) sections
]

abbrev keep_line : Text → Sections → Sections
keep_line line s = elim s.current [
  | none ↦ s
  | some current ↦ record s { sections = append_line current line s.sections }
]

-- The body of the loop. The current section is always there, so that no KeyError is raised.
unfoldable pub section_line : Sections → Text → Sections
section_line s line =
    if contains markers line
    then record { current = some line; sections = insert line [] s.sections }
    else keep_line line s

abbrev pub no_sections : Sections
no_sections = record { current = none; sections = [] }

unfoldable pub split_proc_sections : Text → Dict Text
split_proc_sections stdout =
    map (λ e. (e.0, join_lines e.1)) (foldl section_line no_sections (splitlines stdout)).sections

-- sections.get(marker, "")
abbrev pub section : Text → Dict Text → Text
section marker sections = elim (lookup marker sections) [ none ↦ [] | some text ↦ text ]
