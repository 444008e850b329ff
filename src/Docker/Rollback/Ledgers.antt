-- ===== src/Docker/Rollback/Ledgers.antt =====
-- What the rollback helpers do to the ledger.
use mathlib.Core.List.{reverse, reverse-cons, append_assoc, reverse-reverse}
use compose_cockpit.Base.{String, List, [], ◌∷◌, ◌++◌, ◌≡◌, refl, ◌∙◌}
use compose_cockpit.Docker.Client.{History, Daemon}
use compose_cockpit.Docker.History.{ledger}
use compose_cockpit.Docker.Rollback.{
  remove_containers, rollback_containers, rollback_networks, rollback_volumes,
}

module _ (d : Daemon) where
  ledger-remove_containers :
      (ids : List String) (h : History)
      → ledger (remove_containers d ids h).1 ≡ record (ledger h) {
        containers_stopped = reverse ids ++ (ledger h).containers_stopped;
        containers_removed = reverse ids ++ (ledger h).containers_removed;
      }
  unfolding remove_containers
  ledger-remove_containers [] h = refl
  ledger-remove_containers (id ∷ ids) h =
      ledger-remove_containers ids _ ∙ simp (reverse-cons, append_assoc)

  pub ledger-rollback_containers :
      (ids : List String) (h : History)
      → ledger (rollback_containers d ids h).1 ≡ record (ledger h) {
        containers_stopped = ids ++ (ledger h).containers_stopped;
        containers_removed = ids ++ (ledger h).containers_removed;
      }
  unfolding rollback_containers
  ledger-rollback_containers ids h = ledger-remove_containers (reverse ids) h ∙ simp reverse-reverse

  pub ledger-rollback_networks :
      (ids : List String) (h : History)
      → ledger (rollback_networks d ids h).1
        ≡ record (ledger h) { networks_removed = reverse ids ++ (ledger h).networks_removed }
  unfolding rollback_networks
  ledger-rollback_networks [] h = refl
  ledger-rollback_networks (id ∷ ids) h =
      ledger-rollback_networks ids _ ∙ simp (reverse-cons, append_assoc)

  pub ledger-rollback_volumes :
      (ns : List String) (h : History)
      → ledger (rollback_volumes d ns h).1
        ≡ record (ledger h) { volumes_removed = reverse ns ++ (ledger h).volumes_removed }
  unfolding rollback_volumes
  ledger-rollback_volumes [] h = refl
  ledger-rollback_volumes (n ∷ ns) h =
      ledger-rollback_volumes ns _ ∙ simp (reverse-cons, append_assoc)
