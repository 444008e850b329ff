-- ===== src/Tests/UpRuns.antt =====
-- Runs of Up.
use mathlib.Core.List.{reverse}
use compose_cockpit.Base.{[], ◌∷◌, ◌≡◌, refl, inl, In}
use compose_cockpit.Base.Results.{ok, err}
use compose_cockpit.Domain.Errors.{AppError}
use compose_cockpit.Domain.Operation.{succeeded, cancelled, rolled_back, OperationResult}
use compose_cockpit.Docker.Client.{History}
use compose_cockpit.Docker.Conflicts.{
  check_port_conflicts, check_network_conflict, check_volume_conflict,
}
use compose_cockpit.Docker.History.{ledger, contains_text}
use compose_cockpit.Docker.Resolve.{filter_services, volume_name}
use compose_cockpit.Docker.Rollback.{rollback_containers, rollback_networks, rollback_volumes}
use compose_cockpit.Docker.Sort.{topological_sort}
use compose_cockpit.Docker.Up.Networks.{up_networks}
use compose_cockpit.Docker.Up.Services.{up_services}
use compose_cockpit.Docker.Up.Volumes.{up_volumes}
use compose_cockpit.Docker.Up.{up}
use compose_cockpit.Docker.Up.Endings.{up-rolled_back, up-cancelled, up-succeeded, up-err}
use compose_cockpit.Tests.Shop.{shop, calm, faulty, hurried, guarded}

abbrev after_faulty : History
after_faulty = (up faulty shop [] []).1

abbrev after_hurried : History
after_hurried = (up hurried shop [] []).1

abbrev after_calm : History
after_calm = (up calm shop [] []).1

abbrev after_guarded : History
after_guarded = (up guarded shop [] []).1

faulty_run :
    (r : OperationResult) × (up faulty shop [] [] ≡ (ok r, after_faulty)) × (r.status ≡ rolled_back)
unfolding up up_networks up_services up_volumes check_port_conflicts filter_services
    check_network_conflict topological_sort check_volume_conflict contains_text rollback_containers
    rollback_networks rollback_volumes volume_name
faulty_run = (_, refl, refl)

hurried_run :
    (r : OperationResult) × (up hurried shop [] [] ≡ (ok r, after_hurried)) × (r.status ≡ cancelled)
unfolding up up_networks up_services up_volumes check_port_conflicts filter_services
    check_network_conflict topological_sort check_volume_conflict contains_text rollback_containers
    rollback_networks rollback_volumes volume_name
hurried_run = (_, refl, refl)

calm_run :
    (r : OperationResult) × (up calm shop [] [] ≡ (ok r, after_calm)) × (r.status ≡ succeeded)
unfolding up up_networks up_services up_volumes check_port_conflicts filter_services
    check_network_conflict topological_sort check_volume_conflict contains_text rollback_containers
    rollback_networks rollback_volumes volume_name
calm_run = (_, refl, refl)

guarded_run : (e : AppError) × (up guarded shop [] [] ≡ (err e, after_guarded))
unfolding up up_networks up_services up_volumes check_port_conflicts filter_services
    check_network_conflict topological_sort check_volume_conflict contains_text rollback_containers
    rollback_networks rollback_volumes volume_name
guarded_run = (_, refl)

-- The rollback removes both containers, the one that was created last first.
faulty_removes : (ledger after_faulty).containers_removed ≡ "shop-db-1" ∷ "shop-web-1" ∷ []
unfolding up up_networks up_services up_volumes check_port_conflicts filter_services
    check_network_conflict topological_sort check_volume_conflict contains_text rollback_containers
    rollback_networks rollback_volumes volume_name
faulty_removes = refl

faulty_found : In "shop_data" (ledger after_faulty).volumes_found
unfolding up up_networks up_services up_volumes check_port_conflicts filter_services
    check_network_conflict topological_sort check_volume_conflict contains_text rollback_containers
    rollback_networks rollback_volumes volume_name
faulty_found = inl refl

up-rolled_back_example :
    ((ledger after_faulty).containers_removed ≡ reverse (ledger after_faulty).containers_created)
    × ((ledger after_faulty).volumes_removed ≡ (ledger after_faulty).volumes_ensured)
    × ((ledger after_faulty).networks_removed ≡ (ledger after_faulty).networks_created)
up-rolled_back_example = up-rolled_back faulty shop [] faulty_run.1 faulty_run.2

up-cancelled_example :
    ((ledger after_hurried).containers_removed ≡ reverse (ledger after_hurried).containers_created)
    × ((ledger after_hurried).volumes_removed ≡ [])
    × ((ledger after_hurried).networks_removed ≡ [])
up-cancelled_example = up-cancelled hurried shop [] hurried_run.1 hurried_run.2

up-succeeded_example :
    ((ledger after_calm).containers_removed ≡ [])
    × ((ledger after_calm).volumes_removed ≡ [])
    × ((ledger after_calm).networks_removed ≡ [])
    × ((ledger after_calm).containers_started ≡ (ledger after_calm).containers_created)
up-succeeded_example = up-succeeded calm shop [] calm_run.1 calm_run.2

up-err_example : ledger after_guarded ≡ ledger []
up-err_example = up-err guarded shop [] guarded_run.1
