-- ===== src/Listener/SystemStats/Metrics/Sample.antt =====
-- A cycle's sample from /proc, from the files that the script of
-- packages/log-sump-listener/src/log_sump_listener/system_stats.py prints.
use log_sump.Base.{◌≡◌, refl, ◌∙◌, ap, none, some, List}
use log_sump.Base.Int.{ℤ, pos, eq_ℤ}
use log_sump.Base.Text.{Text}
use log_sump.Base.Lines.{splitlines, join_lines, print_lines, splitlines-join_lines}
use log_sump.Base.Dict.{Dict}
use log_sump.Base.Numerals.{Ints}
use log_sump.Base.Errors.{ok, ◌>>=◌}
use log_sump.Common.Schema.{Float}
use log_sump.Common.Transport.{ExecResult, check}
use log_sump.Listener.Units.{Numbers}
use log_sump.Listener.SystemStats.Sections.{
  split_proc_sections, section, marker_stat, marker_meminfo,
}
use log_sump.Listener.SystemStats.Sections.Script.{
  IsSection, script_lines, split_proc_sections-IsSplit,
}
use log_sump.Listener.SystemStats.Cpu.{Floats}
use log_sump.Listener.SystemStats.Proc.{
  cpu_of_lines, meminfo_of_lines, net_dev_of_lines, diskstats_of_lines, parse_cpu_total_idle,
  parse_meminfo, parse_net_dev, parse_diskstats,
}
use log_sump.Listener.SystemStats.Metrics.{both, metrics_of, proc_sample, parts_of, try_sample_proc}

-- The files that the script prints.
pub record ProcFiles : Type 0 where
  pub stat : List Text
  pub meminfo : List Text
  pub netdev : List Text
  pub diskstats : List Text

abbrev pub AreFiles : ProcFiles → Type 0
AreFiles f = IsSection f.stat × IsSection f.meminfo × IsSection f.netdev × IsSection f.diskstats

abbrev pub script_stdout : ProcFiles → Text
script_stdout f = print_lines (script_lines f.stat f.meminfo f.netdev f.diskstats)

abbrev pub printed : ProcFiles → Text → ExecResult
printed f stderr = record { returncode = pos 0; stdout = script_stdout f; stderr = stderr }

-- What the parsers make of the sections is what they make of the lines.
lines_again :
    (lines : List Text) (s : Text) → IsSection lines → s ≡ join_lines lines → splitlines s ≡ lines
lines_again lines s h e = ap splitlines e ∙ splitlines-join_lines lines h.0

needed_lem :
    (ints : Ints) (sections : Dict Text) (cpu : ℤ × ℤ)
    → parse_cpu_total_idle ints (section marker_stat sections) ≡ ok (some cpu)
    → parts_of ints sections ≡ (
        both (some cpu) (parse_meminfo ints (section marker_meminfo sections)) >>= λ parts.
        ok (sections, parts))
needed_lem ints sections cpu h = rw h refl

check-printed : (f : ProcFiles) (stderr : Text) → check (printed f stderr) ≡ ok (printed f stderr)
unfolding check eq_ℤ
check-printed f stderr = refl

module _ (fl : Floats) (ints : Ints) (num : Numbers) (f : ProcFiles) where
  -- What the two files that must be there give of a script's output, and what is made of it.
  files_lem :
      (at : Float) (stderr : Text) (cpu : ℤ × ℤ)
      → AreFiles f
      → cpu_of_lines ints f.stat ≡ ok (some cpu)
      → try_sample_proc fl ints num at (ok (printed f stderr))
        ≡ proc_sample fl ints num at (
            both (some cpu) (meminfo_of_lines ints f.meminfo) >>= λ parts.
            ok (split_proc_sections (script_stdout f), parts))
  unfolding try_sample_proc parse_cpu_total_idle parse_meminfo
  files_lem at stderr cpu (fa, fb, fc, fd) h =
      let sections = split_proc_sections (script_stdout f) in
      let (a, b, c, d) =
        split_proc_sections-IsSplit f.stat f.meminfo f.netdev f.diskstats fa fb fc fd in
      ap
        (λ ran.
          proc_sample fl ints num at (ran >>= λ r. parts_of ints (split_proc_sections r.stdout)))
        (check-printed f stderr)
      ∙ ap (proc_sample fl ints num at) (
          needed_lem ints sections cpu (ap (cpu_of_lines ints) (lines_again f.stat _ fa a) ∙ h)
          ∙ ap
              (λ lines.
                both (some cpu) (meminfo_of_lines ints lines) >>= λ parts. ok (sections, parts))
              (lines_again f.meminfo _ fb b))

  -- Without a figure for the memory there is no sample.
  pub try_sample_proc-memoryless :
      (at : Float) (stderr : Text) (cpu : ℤ × ℤ)
      → AreFiles f
      → cpu_of_lines ints f.stat ≡ ok (some cpu)
      → meminfo_of_lines ints f.meminfo ≡ none
      → try_sample_proc fl ints num at (ok (printed f stderr)) ≡ ok none
  try_sample_proc-memoryless at stderr cpu files h k = files_lem at stderr cpu files h ∙ rw k refl

  -- When the four files are not empty lines or markers, and /proc/stat and /proc/meminfo give their
  -- figures, then the sample that is read from the output of the script is the one made of these
  -- figures and of what the parsers find in the lines of the other two files: nothing of a file is
  -- lost, or read as another's.
  pub try_sample_proc-printed :
      (at : Float) (stderr : Text) (cpu mem : ℤ × ℤ)
      → AreFiles f
      → cpu_of_lines ints f.stat ≡ ok (some cpu)
      → meminfo_of_lines ints f.meminfo ≡ some mem
      → try_sample_proc fl ints num at (ok (printed f stderr)) ≡ (
          metrics_of fl ints num at
            (cpu, mem)
            (net_dev_of_lines ints f.netdev)
            (diskstats_of_lines ints num.is_digit f.diskstats)
          >>= λ sample. ok (some sample))
  unfolding parse_net_dev parse_diskstats
  try_sample_proc-printed at stderr cpu mem (fa, fb, fc, fd) h k =
      let (a, b, c, d) =
        split_proc_sections-IsSplit f.stat f.meminfo f.netdev f.diskstats fa fb fc fd in
      files_lem at stderr cpu (fa, fb, fc, fd) h
      ∙ rw k (rw (lines_again f.netdev _ fc c) (rw (lines_again f.diskstats _ fd d) refl))
