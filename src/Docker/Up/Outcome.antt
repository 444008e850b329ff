-- ===== src/Docker/Up/Outcome.antt =====
-- How a run of Up may end: what it leaves behind, by the status of its result.
use mathlib.Core.List.{reverse, append-nil}
use compose_cockpit.Base.{String, List, [], ◌++◌, ◌≡◌, sym}
use compose_cockpit.Domain.Operation.{OpStatus, succeeded, cancelled, rolled_back}
use compose_cockpit.Docker.Client.{History, Daemon}
use compose_cockpit.Docker.History.{M, Ledger, ledger}
use compose_cockpit.Docker.Rollback.{rollback_containers, rollback_networks, rollback_volumes}
use compose_cockpit.Docker.Rollback.Ledgers.{
  ledger-rollback_containers, ledger-rollback_networks, ledger-rollback_volumes,
}
use compose_cockpit.Docker.Up.Steps.{Flow, go, stop, and_then}

-- Everything that was created is removed: containers in the reverse order, the rest in order. The
-- volumes that were there before count as created.
pub record Undone (l : Ledger) : Type 0 where
  pub containers : l.containers_removed ≡ reverse l.containers_created
  pub volumes : l.volumes_removed ≡ l.volumes_ensured
  pub networks : l.networks_removed ≡ l.networks_created

-- The containers are removed, and the networks and volumes stay.
pub record ContainersUndone (l : Ledger) : Type 0 where
  pub containers : l.containers_removed ≡ reverse l.containers_created
  pub volumes : l.volumes_removed ≡ []
  pub networks : l.networks_removed ≡ []

-- Nothing is removed, and every container that was created is started.
pub record Kept (l : Ledger) : Type 0 where
  pub containers : l.containers_removed ≡ []
  pub started : l.containers_started ≡ l.containers_created
  pub volumes : l.volumes_removed ≡ []
  pub networks : l.networks_removed ≡ []

abbrev pub Ends : OpStatus → Ledger → Type 0
Ends succeeded l = Kept l
Ends cancelled l = ContainersUndone l
Ends rolled_back l = Undone l
Ends _ l = ⊥

abbrev pub Proceeds : {A : Type 0} → (A → Ledger → Type 0) → Flow A × History → Type 0
Proceeds P (go a, h) = P a (ledger h)
Proceeds P (stop r, h) = Ends r.status (ledger h)

-- What the phases have recorded is what the ledger says.
pub record Open (nets vols ctrs : List String) (l : Ledger) : Type 0 where
  pub networks : l.networks_created ≡ reverse nets
  pub volumes : l.volumes_ensured ≡ reverse vols
  pub containers : reverse l.containers_created ≡ ctrs ++ l.containers_removed
  pub networks_kept : l.networks_removed ≡ []
  pub volumes_kept : l.volumes_removed ≡ []

-- The same between two steps, when no container has been removed.
pub record Holds (nets vols ctrs : List String) (l : Ledger) : Type 0 where
  pub is_open : Open nets vols ctrs l
  pub containers_kept : l.containers_removed ≡ []
  pub started : l.containers_started ≡ l.containers_created

module _ (d : Daemon) (nets vols ctrs : List String) (h : History) where
  pub rollback_containers-ContainersUndone :
      Holds nets vols ctrs (ledger h) → ContainersUndone (ledger (rollback_containers d ctrs h).1)
  rollback_containers-ContainersUndone o = rw (ledger-rollback_containers d ctrs h) (record {
    containers = sym o.is_open.containers;
    volumes = o.is_open.volumes_kept;
    networks = o.is_open.networks_kept;
  })

  -- The rollback of phase 4 undoes all.
  pub rollback_all-Undone :
      Open nets vols ctrs (ledger h)
      → Undone (
          ledger
            (rollback_networks d nets
              (rollback_volumes d vols (rollback_containers d ctrs h).1).1).1)
  rollback_all-Undone o =
      rw
        (
          ledger-rollback_networks d nets,
          ledger-rollback_volumes d vols,
          ledger-rollback_containers d ctrs h,
        )
        (record {
          containers = sym o.containers;
          volumes = rw (o.volumes_kept, o.volumes) (append-nil (reverse vols));
          networks = rw (o.networks_kept, o.networks) (append-nil (reverse nets));
        })

module _ (d : Daemon) (nets vols : List String) (h : History) where
  -- The rollback of phase 3, when there is no container.
  pub rollback_volumes-Undone :
      Open nets vols [] (ledger h)
      → Undone (ledger (rollback_networks d nets (rollback_volumes d vols h).1).1)
  rollback_volumes-Undone o =
      rw (ledger-rollback_networks d nets, ledger-rollback_volumes d vols)
        (record {
          containers = sym o.containers;
          volumes = rw (o.volumes_kept, o.volumes) (append-nil (reverse vols));
          networks = rw (o.networks_kept, o.networks) (append-nil (reverse nets));
        })

module _ (d : Daemon) (nets : List String) (h : History) where
  -- The rollback of phase 2, when there is nothing but networks.
  pub rollback_networks-Undone :
      Open nets [] [] (ledger h) → Undone (ledger (rollback_networks d nets h).1)
  rollback_networks-Undone o = rw (ledger-rollback_networks d nets) (record {
    containers = sym o.containers;
    volumes = rw (o.volumes_kept, o.volumes);
    networks = rw (o.networks_kept, o.networks) (append-nil (reverse nets));
  })

-- A later part that proceeds from wherever the first one does.
pub Proceeds-and_then :
    {A B : Type 0} (P : A → Ledger → Type 0) (Q : B → Ledger → Type 0) (r : Flow A) (h : History)
    (k : A → M (Flow B))
    → Proceeds P (r, h)
    → ((a : A) (h' : History) → P a (ledger h') → Proceeds Q (k a h'))
    → Proceeds Q (and_then r k h)
Proceeds-and_then P Q (go a) h k first later = later a h first
Proceeds-and_then P Q (stop r) h k first later = first

pub Proceeds-map :
    {A : Type 0} (P Q : A → Ledger → Type 0) (r : Flow A × History)
    → ((a : A) (l : Ledger) → P a l → Q a l)
    → Proceeds P r
    → Proceeds Q r
Proceeds-map P Q (go a, h) f o = f a (ledger h) o
Proceeds-map P Q (stop r, h) f o = o
