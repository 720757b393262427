-- ===== src/Listener/ContainersListing/Samples.antt =====
-- A daemon with one container, over an output of one line.
use log_sump.Base.{◌≡◌, refl, inr, true, some, none, List, [], ◌∷◌, if◌then◌else◌, arith}
use log_sump.Base.Int.{pos, eq_ℤ}
use log_sump.Base.Text.{Text, codes, ◌==◌, text_discrete, strip, lstrip, rstrip}
use log_sump.Base.Lines.{splitlines}
use log_sump.Base.Dict.{lookup, insert}
use log_sump.Base.Errors.{Result, ok, err, transport_error, os_error}
use log_sump.Common.Schema.{str, obj, field, end}
use log_sump.Common.Transport.{ExecResult, check}
use log_sump.Listener.ContainerListener.{Library}
use log_sump.Listener.Samples.{show_json}
use log_sump.Listener.Registry.{ContainerRef, Registry}
use log_sump.Listener.ContainersListing.{
  list_containers, add_lines, add_ref, listing_cycle, run_containers_listing,
}
use log_sump.Listener.ContainersListing.Complete.{
  Lists, IsPresent, run_containers_listing-IsPresent,
}

-- Reads `W` as the row of a container.
abbrev lib : Library
lib = record {
  fromisoformat = λ s. none;
  json_loads = λ s.
      if s == codes "W"
      then some (
          obj
            (field (codes "ID") (str (codes "a")) (field (codes "Names") (str (codes "web")) end)))
      else none;
  show = show_json;
  show_str = λ s. refl;
}

abbrev same_order : List ContainerRef → List ContainerRef
same_order refs = refs

abbrev printed : Text → Result ExecResult
printed stdout = ok (record { returncode = pos 0; stdout = stdout; stderr = [] })

abbrev exited : Result ExecResult
exited = ok (record { returncode = pos 1; stdout = []; stderr = [] })

abbrev empty : Registry
empty = record { daemons = []; notifies = true }

listed : Lists lib (codes "a") (printed (codes " W\n\n"))
unfolding list_containers add_lines add_ref check eq_ℤ splitlines strip lstrip rstrip text_discrete
    lookup insert
listed = (record { container_id = codes "a"; container_name = codes "web" } ∷ [], refl, refl)

run_containers_listing-IsPresent_example :
    IsPresent lib same_order
      (codes "h")
      (codes "a")
      (λ refs. refl)
      (pos 3)
      (run_containers_listing lib same_order
        (codes "h")
        (printed (codes " W\n\n") ∷ exited ∷ printed (codes "?") ∷ err transport_error ∷ [])
        empty)
unfolding list_containers add_lines add_ref check eq_ℤ splitlines strip lstrip rstrip text_discrete
run_containers_listing-IsPresent_example =
    run_containers_listing-IsPresent lib same_order (codes "h") (codes "a") (λ refs. refl) (pos 3)
      (printed (codes " W\n\n")) (exited ∷ printed (codes "?") ∷ err transport_error ∷ []) empty
      (omega arith) listed (inr (_, refl, refl), (inr (_, refl, refl), (inr (_, refl, refl), tt)))

-- A command that cannot be spawned ends the loop: OSError is not caught.
unspawnable_test :
    run_containers_listing lib same_order
      (codes "h")
      (err os_error ∷ printed (codes " W\n\n") ∷ [])
      empty
    ≡ err os_error
unfolding list_containers run_containers_listing listing_cycle
unspawnable_test = refl
