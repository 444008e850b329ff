-- ===== src/Docker/Up/Networks.antt =====
-- Phase 2 of Operations.Up (internal/docker/operations.go): the networks.
pub mod Progress
use compose_cockpit.Base.{
  String, true, false, Option, none, some, List, [], ◌∷◌, ◌++◌, same, if◌then◌else◌,
}
use compose_cockpit.Base.Dict.{Dict}
use compose_cockpit.Base.Results.{Result, ok, err}
use compose_cockpit.Base.Text.{cat}
use compose_cockpit.Domain.Errors.{Message, text, network_conflict}
use compose_cockpit.Domain.Operation.{OpStep}
use compose_cockpit.Domain.Project.{Project, Network}
use compose_cockpit.Docker.Client.{Daemon}
use compose_cockpit.Docker.Conflicts.{check_network_conflict}
use compose_cockpit.Docker.History.{M, return, ◌>>=◌, ◌>>◌, contains_text, network_create}
use compose_cockpit.Docker.Resolve.{project_label, network_name}
use compose_cockpit.Docker.Rollback.{rollback_networks}
use compose_cockpit.Docker.Up.Steps.{Flow, go, stop, and_then, rolled_back_at, done_step}

-- The driver and the labels that a network is created with.
driver_of : Network → String
driver_of def = if same def.driver "" then "bridge" else def.driver

network_labels : Project → String → Dict String
network_labels p name = (project_label, p.id) ∷ ("com.composecockpit.network", name) ∷ []

module _ (d : Daemon) (p : Project) where
  -- Phase 2, a failure: the networks are rolled back.
  abort_network :
      String → Message → List OpStep → List String → M (Flow (List OpStep × List String))
  abort_network action e steps nets = do
    rollback_networks d nets
    return (stop (rolled_back_at "" action e network_conflict e steps))

  -- After NetworkCreate. A network that exists already is not recorded.
  network_answered :
      String
      → List OpStep
      → List String
      → Result String String
      → M (Flow (List OpStep × List String))
  unfolding abort_network
  network_answered action steps nets (ok id) =
      return (go (done_step "" action steps, nets ++ id ∷ []))
  network_answered action steps nets (err e) = elim (contains_text e "already exists") [
    | true ↦ return (go (done_step "" action steps, nets))
    | false ↦ abort_network action (text e) steps nets
  ]

  -- After checkNetworkConflict.
  network_checked :
      String
      → Network
      → List OpStep
      → List String
      → Option Message
      → M (Flow (List OpStep × List String))
  unfolding abort_network network_answered driver_of network_labels
  network_checked name def steps nets (some e) =
      abort_network (cat "create_network:" name) e steps nets
  network_checked name def steps nets none = do
    r ← network_create d (network_name p name def) (driver_of def) (network_labels p name)
    network_answered (cat "create_network:" name) steps nets r

  -- Phase 2, one network that is not external.
  up_network : String → Network → List OpStep → List String → M (Flow (List OpStep × List String))
  unfolding network_checked
  up_network name def steps nets = do
    conflict ← check_network_conflict d (network_name p name def)
    network_checked name def steps nets conflict

  unfoldable pub up_networks :
      Dict Network → List OpStep → List String → M (Flow (List OpStep × List String))
  unfolding up_network
  up_networks [] steps nets = return (go (steps, nets))
  up_networks ((name, def) ∷ rest) steps nets = elim def.external [
    | true ↦ up_networks rest steps nets
    | false ↦ do r ← up_network name def steps nets; and_then r (λ s. up_networks rest s.0 s.1)
  ]
