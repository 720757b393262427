-- ===== src/Common/Transport.antt =====
-- packages/log-sump-common/src/log_sump_common/transport.py: the argument vectors of the commands, and
-- the check of what a command returned. The subprocesses themselves are not modelled; the merge of
-- their output streams is in Merge.
pub mod Child
pub mod Merge
use log_sump.Base.{◌≡◌, refl, Option, some, List, [], ◌∷◌, ◌++◌, if◌then◌else◌, last, append_assoc}
use log_sump.Base.Int.{ℤ, pos, eq_ℤ}
use log_sump.Base.Text.{Text, codes}
use log_sump.Base.Errors.{Result, ok, err, transport_error}
use log_sump.Common.Schema.{StreamName}
use log_sump.Common.Config.{TransportKind, ssh, local, DaemonConfig}

-- One line of output, with the stream that it came from.
pub record StreamLine : Type 0 where
  pub stream : StreamName
  pub text : Text

pub record ExecResult : Type 0 where
  pub returncode : ℤ
  pub stdout : Text
  pub stderr : Text

unfoldable pub check : ExecResult → Result ExecResult
check r = if eq_ℤ r.returncode (pos 0) then ok r else err transport_error

-- SSHTransport and LocalTransport
pub data Transport : Type 0 where
  ssh_transport : (host user : Text) (ssh_options : List Text) → Transport
  local_transport : Transport

unfoldable pub command_prefix : Transport → List Text
command_prefix (ssh_transport host user ssh_options) =
    codes "ssh" ∷ (ssh_options ++ ((user ++ (codes "@" ++ host)) ∷ []))
command_prefix local_transport = []

unfoldable pub shell_command : Transport → Text → List Text
shell_command (ssh_transport host user ssh_options) script = script ∷ []
shell_command local_transport script = codes "sh" ∷ codes "-c" ∷ script ∷ []

-- The argument vector of `run` and `stream_lines`.
unfoldable pub argv : Transport → List Text → List Text
argv transport args = command_prefix transport ++ args

abbrev transport_for : DaemonConfig → TransportKind → Transport
transport_for daemon local = local_transport
transport_for daemon ssh = ssh_transport daemon.host daemon.user daemon.ssh_options

-- build_transport of packages/log-sump-listener/src/log_sump_listener/app.py
unfoldable pub build_transport : DaemonConfig → Transport
build_transport daemon = transport_for daemon daemon.transport

last-append : (xs : List Text) (x : Text) → last (xs ++ (x ∷ [])) ≡ some x
last-append [] x = refl
last-append (y ∷ []) x = refl
last-append (y ∷ z ∷ xs) x = last-append (z ∷ xs) x

-- A compound script is the last argument of its command, and the arguments before it do not depend
-- on it.
abbrev IsWhole : Transport → Text → Text → Type 0
IsWhole transport script other =
    (last (argv transport (shell_command transport script)) ≡ some script)
    × ((before : List Text) × (argv transport (shell_command transport script)
          ≡ before ++ (script ∷ []))
        × (argv transport (shell_command transport other) ≡ before ++ (other ∷ [])))

transport_for-IsWhole :
    (daemon : DaemonConfig) (kind : TransportKind) (script other : Text)
    → IsWhole (transport_for daemon kind) script other
unfolding argv shell_command command_prefix
transport_for-IsWhole daemon local script other = (refl, (codes "sh" ∷ codes "-c" ∷ [], refl, refl))
transport_for-IsWhole daemon ssh script other =
    let prefix = command_prefix (transport_for daemon ssh) in
    (last-append prefix script, (prefix, refl, refl))

-- A compound script reaches the host of a configured daemon, over ssh or locally, as the last
-- argument of its command, whole, and the other arguments do not depend on it.
pub build_transport-IsWhole :
    (daemon : DaemonConfig) (script other : Text) → IsWhole (build_transport daemon) script other
unfolding build_transport
build_transport-IsWhole daemon script other =
    transport_for-IsWhole daemon daemon.transport script other
