-- ===== src/Docker/Rollback.antt =====
-- internal/docker/operations.go, "Rollback helpers": errors of the removals are ignored.
pub mod Ledgers
use mathlib.Core.List.{reverse}
use compose_cockpit.Base.{String, List, [], ◌∷◌}
use compose_cockpit.Docker.Client.{Daemon}
use compose_cockpit.Docker.History.{
  M, return, ◌>>=◌, container_stop, container_remove, network_remove, volume_remove,
}

module _ (d : Daemon) where
  -- The loop body of rollbackContainers, over the identifiers in the order of the loop.
  remove_containers : List String → M (Unit {0})
  remove_containers [] = return tt
  remove_containers (id ∷ ids) = do
    _ ← container_stop d id
    _ ← container_remove d id
    remove_containers ids

  -- `for i := len(containerIDs) - 1; i >= 0; i--`
  unfoldable pub rollback_containers : List String → M (Unit {0})
  unfolding remove_containers
  rollback_containers ids = remove_containers (reverse ids)

  unfoldable pub rollback_networks : List String → M (Unit {0})
  rollback_networks [] = return tt
  rollback_networks (id ∷ ids) = do _ ← network_remove d id; rollback_networks ids

  unfoldable pub rollback_volumes : List String → M (Unit {0})
  rollback_volumes [] = return tt
  rollback_volumes (n ∷ ns) = do _ ← volume_remove d n; rollback_volumes ns
