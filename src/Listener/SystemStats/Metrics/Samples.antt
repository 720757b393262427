-- ===== src/Listener/SystemStats/Metrics/Samples.antt =====
-- A host with one CPU, some memory, three network interfaces, of which one is loopback, and a disk
-- with one partition.
use log_sump.Base.{ℕ, Bool, true, false, not, ◌&&◌, List, [], ◌∷◌}
use log_sump.Base.Text.{Text, codes, truthy, contains}
use log_sump.Listener.SystemStats.Sections.{markers}
use log_sump.Listener.SystemStats.Sections.Script.{is_line}
use log_sump.Listener.SystemStats.Proc.MemInfo.{MemRow}
use log_sump.Listener.SystemStats.Proc.NetDev.{Interface}
use log_sump.Listener.SystemStats.Proc.DiskStats.{Disk}
use log_sump.Listener.SystemStats.Metrics.Host.{Host}

abbrev interface : Text → ℕ → ℕ → Interface
interface name rx tx = record {
  gap = codes "  ";
  name = name;
  rx = rx;
  packets = 1;
  errs = 0;
  drop = 0;
  fifo = 0;
  frame = 0;
  compressed = 0;
  multicast = 0;
  tx = tx;
  more = 1 ∷ [];
}

abbrev interfaces : List Interface
interfaces =
    interface (codes "lo") 5 5 ∷ interface (codes "eth0") 10 3 ∷ interface (codes "eth1") 20 4 ∷ []

abbrev header : List Text
header = codes "Inter-|   Receive" ∷ codes " face |bytes" ∷ []

abbrev disk : Text → ℕ → ℕ → Disk
disk name sectors_read sectors_written = record {
  gap = codes "   ";
  major = 8;
  minor = 0;
  name = name;
  reads = 1;
  reads_merged = 0;
  sectors_read = sectors_read;
  read_ms = 2;
  writes = 1;
  writes_merged = 0;
  sectors_written = sectors_written;
  more = 4 ∷ [];
}

abbrev memory_row : Text → ℕ → Bool → MemRow
memory_row name number in_kib = record {
  name = name;
  gap = codes "  ";
  number = number;
  in_kib = in_kib;
}

abbrev host : Host
host = record {
  cpu = record { user = 1; nice = 0; system = 2; idle = 7; iowait = 3; more = 4 ∷ [] };
  stat_lines = codes "ctxt 5" ∷ [];
  memory =
      memory_row (codes "MemTotal") 8 true
      ∷ memory_row (codes "HugePages_Total") 0 false
      ∷ memory_row (codes "MemAvailable") 5 true
      ∷ [];
  header = header;
  interfaces = interfaces;
  disks = disk (codes "sda") 6 9 ∷ disk (codes "sda1") 6 9 ∷ [];
}

abbrev is_section : List Text → Bool
is_section [] = true
is_section (line ∷ lines) =
    truthy line && is_line line && not (contains markers line) && is_section lines
