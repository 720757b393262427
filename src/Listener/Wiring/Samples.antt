-- ===== src/Listener/Wiring/Samples.antt =====
-- Two daemons with one identifier, one daemon that is not enabled, and one more.
use log_sump.Base.{refl, ◌≡◌, true, false, [], ◌∷◌, map}
use log_sump.Base.Text.{codes, text_discrete}
use log_sump.Base.Dict.{lookup, insert}
use log_sump.Base.Errors.{ok, ◌>>=◌}
use log_sump.Common.Config.{DaemonConfig, ssh, local, Settings, default_settings, enabled_daemons}
use log_sump.Common.Transport.{build_transport}
use log_sump.Listener.Wiring.{run, run_daemons, run_daemon, by_daemon}
use log_sump.Listener.Wiring.Routed.{AllRouted, host_of, run-AllRouted}

abbrev near : DaemonConfig
near = record {
  id = codes "a";
  host = codes "h";
  user = codes "u";
  transport = local;
  ssh_options = [];
  enabled = true;
}

abbrev settings : Settings
settings = record default_settings {
  daemons =
      near
      ∷ record near { id = codes "c"; enabled = false }
      ∷ record near { transport = ssh }
      ∷ record near { id = codes "b" }
      ∷ [];
}

hosts_test :
    (run settings >>= λ r. ok (map host_of r.1))
    ≡ ok (map codes ("a" ∷ "a" ∷ "a" ∷ "a" ∷ "a" ∷ "a" ∷ "a" ∷ "a" ∷ "b" ∷ "b" ∷ "b" ∷ "b" ∷ []))
unfolding run run_daemons run_daemon by_daemon enabled_daemons lookup insert text_discrete
    build_transport
hosts_test = refl

run-AllRouted_example : AllRouted settings (run settings)
run-AllRouted_example = run-AllRouted settings
