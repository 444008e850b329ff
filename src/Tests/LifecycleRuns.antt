-- ===== src/Tests/LifecycleRuns.antt =====
-- Runs of Stop, Start, Restart, Down and GetProjectStatus.
use mathlib.Core.List.{reverse}
use compose_cockpit.Base.{List, [], ◌∷◌, ◌++◌, ◌≡◌, refl}
use compose_cockpit.Base.Results.{ok}
use compose_cockpit.Domain.Operation.{succeeded, OperationResult}
use compose_cockpit.Docker.Client.{ContainerInfo}
use compose_cockpit.Docker.History.{ledger}
use compose_cockpit.Docker.Resolve.{label, selected}
use compose_cockpit.Docker.Lifecycle.{service_name, is_running, stop, down, chosen}
use compose_cockpit.Docker.Lifecycle.Calls.{ids_of}
use compose_cockpit.Docker.Lifecycle.Effects.{but_networks, down-calls}
use compose_cockpit.Tests.Shop.{shop, calm, container_of}

-- What the daemon lists: `db` runs, `web` does not.
abbrev two : List ContainerInfo
two = container_of "db" "running" ∷ container_of "web" "exited" ∷ []

-- Stop stops `db` only.
stops_db : (ledger (stop calm shop [] []).1).containers_stopped ≡ "db" ∷ []
unfolding stop selected is_running service_name label
stops_db = refl

down_run : (r : OperationResult) × ((down calm shop [] []).0 ≡ ok r)
unfolding down selected
down_run = (_, refl)

down-calls_example :
    (done rest : List ContainerInfo) × (two ≡ done ++ rest)
    × (down_run.0.status ≡ succeeded → rest ≡ [])
    × (but_networks (ledger (down calm shop [] []).1) ≡ record (but_networks (ledger [])) {
      containers_stopped = reverse (ids_of (chosen []) done) ++ [];
      containers_removed = reverse (ids_of (chosen []) done) ++ [];
    })
down-calls_example = down-calls calm shop [] [] refl {r = down_run.0} down_run.1
