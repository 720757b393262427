-- ===== src/Listener/SystemStats/DiskUsage/Samples.antt =====
-- Two lines about images and one about volumes.
use log_sump.Base.{◌≡◌, refl, Bool, none, some, [], ◌∷◌, if◌then◌else◌, arith}
use log_sump.Base.Int.{pos, eq_ℤ}
use log_sump.Base.Text.{Text, codes, ◌==◌, ascii_only}
use log_sump.Base.Lines.{splitlines, print_lines}
use log_sump.Base.Errors.{ok}
use log_sump.Common.Schema.{Json, str, obj, end, field}
use log_sump.Common.Transport.{ExecResult, check}
use log_sump.Listener.ContainerListener.{Library}
use log_sump.Listener.Samples.{show_json, numbers}
use log_sump.Listener.SystemStats.DiskUsage.{try_sample_docker_disk_usage}
use log_sump.Listener.SystemStats.DiskUsage.Table.{IsKeyEquality}
use log_sump.Listener.SystemStats.DiskUsage.Outcome.{
  readings, IsOutcome, try_sample_docker_disk_usage-IsOutcome,
}

abbrev same_key : Json → Json → Bool
same_key a b = show_json a == show_json b

same_key-IsKeyEquality : IsKeyEquality same_key
same_key-IsKeyEquality = record {
  symmetric = λ a b. ground arith;
  transitive = λ a b c h. ground arith;
}

abbrev usage : Text → Text → Json
usage row_type size =
    obj (field (codes "Type") (str row_type) (field (codes "Size") (str size) end))

abbrev lib : Library
lib = record {
  fromisoformat = λ s. none;
  json_loads = λ s.
      if s == codes "1"
      then some (usage (codes "Images") (codes "5MB"))
      else (if s == codes "2"
          then some (usage (codes "Images") (codes "6MB"))
          else some (usage (codes "Volumes") (codes "7B")));
  show = show_json;
  show_str = λ s. refl;
}

abbrev ran : ExecResult
ran = record {
  returncode = pos 0;
  stdout = print_lines (codes "1" ∷ codes "2" ∷ codes "3" ∷ []);
  stderr = [];
}

check-ran : check ran ≡ ok ran
unfolding check eq_ℤ
check-ran = refl

try_sample_docker_disk_usage-IsOutcome_example :
    IsOutcome same_key lib ascii_only numbers
      (readings same_key lib ascii_only numbers (splitlines ran.stdout))
      (try_sample_docker_disk_usage same_key lib ascii_only numbers (ok ran))
try_sample_docker_disk_usage-IsOutcome_example =
    try_sample_docker_disk_usage-IsOutcome same_key lib ascii_only numbers same_key-IsKeyEquality
      ran check-ran
