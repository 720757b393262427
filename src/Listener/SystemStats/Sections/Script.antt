-- ===== src/Listener/SystemStats/Sections/Script.antt =====
-- The output of the script that reads /proc, and what
-- packages/log-sump-listener/src/log_sump_listener/system_stats.py splits it into.
use log_sump.Base.{
  ◌≡◌, refl, ◌∙◌, sym, ap, Bool, true, false, not, ◌&&◌, some, List, [], ◌∷◌, ◌++◌, map, foldl, All,
  All-append, arith, append_assoc, append-nil,
}
use log_sump.Base.Text.{Text, contains, ==_refl, text_discrete}
use log_sump.Base.Lines.{
  is_break, splitlines, join_lines, print_lines, IsLine, IsFullLine, splitlines-print_lines,
}
use log_sump.Base.Dict.{Dict, lookup, insert, lookup-insert, insert-insert, lookup-map}
use log_sump.Listener.SystemStats.Sections.{
  marker_stat, marker_meminfo, marker_netdev, marker_diskstats, markers, Sections, section_line,
  no_sections, split_proc_sections, section,
}

foldl-append {ℓ κ} :
    {A : Type ℓ} {S : Type κ} (step : S → A → S) (s : S) (xs ys : List A)
    → foldl step s (xs ++ ys) ≡ foldl step (foldl step s xs) ys
foldl-append step s [] ys = refl
foldl-append step s (x ∷ xs) ys = foldl-append step (step s x) xs ys

-- No line of a section is a marker.
abbrev pub IsBody : List Text → Type 0
IsBody lines = All (λ line. contains markers line ≡ false) lines

abbrev within : Text → List Text → Dict (List Text) → Sections
within m lines d = record { current = some m; sections = insert m lines d }

section_line-body :
    (m line : Text) (lines : List Text) (d : Dict (List Text))
    → contains markers line ≡ false
    → section_line (within m lines d) line ≡ within m (lines ++ (line ∷ [])) d
unfolding section_line
section_line-body m line lines d h =
    ground (
      arith,
      h,
      lookup-insert m m lines d,
      ==_refl m,
      insert-insert m lines (lines ++ (line ∷ [])) d,
    )

body_lem :
    (m : Text) (lines more : List Text) (d : Dict (List Text))
    → IsBody more
    → foldl section_line (within m lines d) more ≡ within m (lines ++ more) d
body_lem m lines [] d h = ap (λ l. within m l d) (sym (append-nil lines))
body_lem m lines (line ∷ more) d (h, hs) =
    ap (λ s. foldl section_line s more) (section_line-body m line lines d h)
    ∙ body_lem m (lines ++ (line ∷ [])) more d hs
    ∙ ap (λ l. within m l d) (append_assoc lines (line ∷ []) more)

section_lem :
    (m : Text) (lines rest : List Text) (s : Sections)
    → contains markers m ≡ true
    → IsBody lines
    → foldl section_line s (m ∷ lines ++ rest) ≡ foldl section_line (within m lines s.sections) rest
unfolding section_line
section_lem m lines rest s k h =
    foldl-append section_line (section_line s m) lines rest
    ∙ ap (λ t. foldl section_line t rest) (rw k (body_lem m [] lines s.sections h))

is_marker :
    (contains markers marker_stat ≡ true)
    × (contains markers marker_meminfo ≡ true)
    × (contains markers marker_netdev ≡ true)
    × (contains markers marker_diskstats ≡ true)
unfolding text_discrete
is_marker = (refl, refl, refl, refl)

abbrev pub is_line : Text → Bool
is_line [] = true
is_line (c ∷ s) = not (is_break c) && is_line s

pub line_lem : (s : Text) → is_line s ≡ true → IsLine s
line_lem [] h = tt
line_lem (c ∷ s) h = (ground (arith, h), line_lem s (ground (arith, h)))

markers-IsLine :
    IsLine marker_stat × IsLine marker_meminfo × IsLine marker_netdev × IsLine marker_diskstats
markers-IsLine = (
  line_lem marker_stat refl,
  line_lem marker_meminfo refl,
  line_lem marker_netdev refl,
  line_lem marker_diskstats refl,
)

full_lines : (lines : List Text) → All IsFullLine lines → All IsLine lines
full_lines [] h = tt
full_lines ([] ∷ lines) (h, hs) = absurd h
full_lines ((c ∷ l) ∷ lines) (h, hs) = (h, full_lines lines hs)

section-map :
    (m : Text) (d : Dict (List Text)) (lines : List Text)
    → lookup m d ≡ some lines
    → section m (map (λ e. (e.0, join_lines e.1)) d) ≡ join_lines lines
section-map m d lines h = ground (arith, lookup-map join_lines m d, h)

-- The lines of a file: none is empty, and none is a marker.
abbrev pub IsSection : List Text → Type 0
IsSection lines = All IsFullLine lines × IsBody lines

-- The lines that the script prints.
abbrev pub script_lines : (stat meminfo netdev diskstats : List Text) → List Text
script_lines stat meminfo netdev diskstats =
    marker_stat ∷ stat
    ++ (marker_meminfo ∷ meminfo
        ++ (marker_netdev ∷ netdev ++ (marker_diskstats ∷ diskstats ++ [])))

module _ (stat meminfo netdev diskstats : List Text) where
  abbrev four : Dict (List Text)
  four =
      insert marker_diskstats diskstats
        (insert marker_netdev netdev (insert marker_meminfo meminfo (insert marker_stat stat [])))

  four_lem :
      (lookup marker_stat four ≡ some stat)
      × (lookup marker_meminfo four ≡ some meminfo)
      × (lookup marker_netdev four ≡ some netdev)
      × (lookup marker_diskstats four ≡ some diskstats)
  unfolding lookup insert text_discrete
  four_lem = (refl, refl, refl, refl)

  script-sections :
      IsBody stat
      → IsBody meminfo
      → IsBody netdev
      → IsBody diskstats
      → (foldl section_line no_sections (script_lines stat meminfo netdev diskstats)).sections
        ≡ four
  script-sections a b c d =
      ap (λ s. s.sections)
        (section_lem marker_stat stat _ no_sections is_marker.0 a
          ∙ section_lem marker_meminfo meminfo _ (within marker_stat stat []) is_marker.1 b
          ∙ section_lem marker_netdev netdev _ (within marker_meminfo meminfo _) is_marker.2 c
          ∙ section_lem marker_diskstats diskstats [] (within marker_netdev netdev _) is_marker.3 d)

  section_of :
      (m stdout : Text) (d : Dict (List Text)) (lines : List Text)
      → (foldl section_line no_sections (splitlines stdout)).sections ≡ d
      → lookup m d ≡ some lines
      → section m (split_proc_sections stdout) ≡ join_lines lines
  unfolding split_proc_sections
  section_of m stdout d lines h k =
      ap (λ e. section m (map (λ e. (e.0, join_lines e.1)) e)) h ∙ section-map m d lines k

  abbrev pub IsSplit : Dict Text → Type 0
  IsSplit sections =
      (section marker_stat sections ≡ join_lines stat)
      × (section marker_meminfo sections ≡ join_lines meminfo)
      × (section marker_netdev sections ≡ join_lines netdev)
      × (section marker_diskstats sections ≡ join_lines diskstats)

  script_lines-IsLine :
      IsSection stat
      → IsSection meminfo
      → IsSection netdev
      → IsSection diskstats
      → All IsLine (script_lines stat meminfo netdev diskstats)
  script_lines-IsLine (a, ha) (b, hb) (c, hc) (d, hd) = (
    markers-IsLine.0,
    All-append _ stat _ (full_lines stat a) (
      markers-IsLine.1,
      All-append _ meminfo _ (full_lines meminfo b) (
        markers-IsLine.2,
        All-append _ netdev _ (full_lines netdev c)
            (markers-IsLine.3, All-append _ diskstats [] (full_lines diskstats d) tt),
      ),
    ),
  )

  -- Every section of what the script prints is found again.
  pub split_proc_sections-IsSplit :
      IsSection stat
      → IsSection meminfo
      → IsSection netdev
      → IsSection diskstats
      → IsSplit (split_proc_sections (print_lines (script_lines stat meminfo netdev diskstats)))
  split_proc_sections-IsSplit a b c d =
      let e =
        ap (λ l. (foldl section_line no_sections l).sections)
          (splitlines-print_lines (script_lines stat meminfo netdev diskstats)
            (script_lines-IsLine a b c d))
        ∙ script-sections a.1 b.1 c.1 d.1 in
      (
        section_of marker_stat _ four stat e four_lem.0,
        section_of marker_meminfo _ four meminfo e four_lem.1,
        section_of marker_netdev _ four netdev e four_lem.2,
        section_of marker_diskstats _ four diskstats e four_lem.3,
      )
