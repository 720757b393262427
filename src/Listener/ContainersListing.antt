-- ===== src/Listener/ContainersListing.antt =====
-- packages/log-sump-listener/src/log_sump_listener/containers_listing.py: `docker ps`, and what its
-- loop does with the registry.
pub mod Complete
mod Samples
use log_sump.Base.{
  ℕ, Bool, true, false, not, ◌&&◌, ◌||◌, Option, none, some, List, [], ◌∷◌, ◌++◌, length, map,
  if◌then◌else◌,
}
use log_sump.Base.Text.{Text, codes, ◌==◌, strip, truthy}
use log_sump.Base.Lines.{splitlines}
use log_sump.Base.Errors.{
  Error, Result, ok, err, ◌>>=◌, or_raise, value_error, is_transport_or_value_error,
}
use log_sump.Common.Schema.{Json}
use log_sump.Common.Transport.{ExecResult, check}
use log_sump.Listener.ContainerListener.{Library}
use log_sump.Listener.JsonLines.{item}
use log_sump.Listener.Registry.{ContainerRef, Registry, update}

abbrev pub ps_command : List Text
ps_command = codes "docker" ∷ codes "ps" ∷ codes "--format" ∷ codes "{{json .}}" ∷ []

abbrev same_ref : ContainerRef → ContainerRef → Bool
same_ref a b = a.container_id == b.container_id && a.container_name == b.container_name

-- refs.add(ref): the set as the list of its members, in the order of their first additions
unfoldable pub add_ref : ContainerRef → List ContainerRef → List ContainerRef
add_ref ref [] = ref ∷ []
add_ref ref (r ∷ refs) =
    let rest = add_ref ref refs in if same_ref r ref then r ∷ refs else r ∷ rest

-- A cycle reports whether the daemon was reached, and how many containers it runs.
pub record CycleReport : Type 0 where
  pub reachable : Bool
  pub count : ℕ

module _ (lib : Library) where
  abbrev pub ref_of : Json → Result ContainerRef
  ref_of row = item (codes "ID") row >>= λ id.
      item (codes "Names") row >>= λ name. ok (record { container_id = id; container_name = name })

  abbrev pub read_ref : Text → Result ContainerRef
  read_ref line = or_raise (lib.json_loads line) value_error >>= λ row. ref_of row

  abbrev pub add_line : List ContainerRef → Text → Result (List ContainerRef)
  add_line refs line =
      if truthy line then (read_ref line >>= λ ref. ok (add_ref ref refs)) else ok refs

  -- The loop over the lines, from a set of refs on.
  unfoldable pub add_lines : List ContainerRef → List Text → Result (List ContainerRef)
  add_lines refs [] = ok refs
  add_lines refs (line ∷ lines) = add_line refs (strip line) >>= λ refs'. add_lines refs' lines

  -- `ran` is what transport.run returns or raises.
  unfoldable pub list_containers : Result ExecResult → Result (List ContainerRef)
  list_containers ran =
      ran >>= λ result. check result >>= λ result. add_lines [] (splitlines result.stdout)

  -- `order` is the order in which a set is iterated.
  module _ (order : List ContainerRef → List ContainerRef) where
    abbrev listed :
        Text
        → Result (List ContainerRef)
        → Registry
        → Result (Registry × List ContainerRef × CycleReport)
    listed docker_host (ok listing) registry =
        let (registry', new_refs) = update docker_host (order listing) registry in
        ok (registry', new_refs, record { reachable = true; count = length listing })
    listed docker_host (err e) registry =
        if is_transport_or_value_error e
        then ok (registry, [], record { reachable = false; count = 0 })
        else err e

    -- One cycle of run_containers_listing: the registry, the refs it reports as new, and the report
    -- of `on_cycle`. An exception that it raises ends the loop.
    unfoldable pub listing_cycle :
        Text → Result ExecResult → Registry → Result (Registry × List ContainerRef × CycleReport)
    listing_cycle docker_host ran registry = listed docker_host (list_containers ran) registry

    -- run_containers_listing over what its commands return: the registry that it leaves.
    unfoldable pub run_containers_listing :
        Text → List (Result ExecResult) → Registry → Result Registry
    run_containers_listing docker_host [] registry = ok registry
    run_containers_listing docker_host (ran ∷ later) registry =
        listing_cycle docker_host ran registry >>= λ cycle.
        run_containers_listing docker_host later cycle.0
