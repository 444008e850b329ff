-- ===== src/Docker/Up/Endings.antt =====
-- What a whole run of Up leaves behind.
use mathlib.Core.List.{reverse}
use compose_cockpit.Base.{
  String, none, some, List, [], ◌∷◌, ◌≡◌, ◌⊎◌, inl, inr, refl, Option, In, arith, Bool-cases,
}
use compose_cockpit.Base.Results.{Result, ok, err}
use compose_cockpit.Domain.Errors.{AppError}
use compose_cockpit.Domain.Operation.{
  OpStatus, pending, running, succeeded, failed, cancelled, rolled_back, OpStep, OperationResult,
}
use compose_cockpit.Domain.Project.{Project, Service}
use compose_cockpit.Docker.Client.{Event, History, Daemon}
use compose_cockpit.Docker.Conflicts.Ledgers.{ledger-check_port_conflicts}
use compose_cockpit.Docker.History.{
  Ledger, ledger, contains_text, post_volume_found, post_volume_refused,
}
use compose_cockpit.Docker.Up.Networks.Progress.{NetworksHold, up_networks-Proceeds}
use compose_cockpit.Docker.Up.Outcome.{Ends, Proceeds, Proceeds-and_then, Proceeds-map, Holds}
use compose_cockpit.Docker.Up.Services.Progress.{ServicesHold, up_services-Proceeds}
use compose_cockpit.Docker.Up.Steps.{Flow, go, stop}
use compose_cockpit.Docker.Up.Volumes.Progress.{VolumesHold, up_volumes-Proceeds}
use compose_cockpit.Docker.Up.{up_phases, finish_up, up_checked, up}

-- An error is returned before anything is created or removed; a result ends by its status.
abbrev pub UpEnds : Result AppError OperationResult × History → Type 0
UpEnds (ok r, h) = Ends r.status (ledger h)
UpEnds (err e, h) = ledger h ≡ ledger []

-- The record at the end of phase 4, whatever was recorded before.
abbrev AllHold : List OpStep × List String → Ledger → Type 0
AllHold s l = (nets : List String) × (vols : List String) × Holds nets vols s.1 l

start-Holds : {l : Ledger} → l ≡ ledger [] → Holds [] [] [] l
start-Holds e = rw e (record {
  is_open = record {
    networks = refl;
    volumes = refl;
    containers = refl;
    networks_kept = refl;
    volumes_kept = refl;
  };
  containers_kept = refl;
  started = refl;
})

module _ (d : Daemon) (p : Project) where
  up_phases-Proceeds :
      (ss : List Service) (h : History)
      → ledger h ≡ ledger []
      → Proceeds AllHold (up_phases d p ss h)
  unfolding up_phases
  up_phases-Proceeds ss h e =
      Proceeds-and_then NetworksHold AllHold _ _ _
        (up_networks-Proceeds d p p.networks [] [] h (start-Holds e))
        λ s2 h2 o2.
          Proceeds-and_then (VolumesHold s2.1) AllHold _ _ _
            (up_volumes-Proceeds d p s2.1 p.volumes s2.0 [] h2 o2)
            λ s3 h3 o3.
              Proceeds-map (ServicesHold s2.1 s3.1) AllHold _ (λ s l o. (s2.1, s3.1, o))
                (up_services-Proceeds d p s2.1 s3.1 ss s3.0 [] h3 o3)

  finish_up-UpEnds :
      (r : Flow (List OpStep × List String)) (h : History)
      → Proceeds AllHold (r, h)
      → UpEnds (finish_up d p r, h)
  unfolding finish_up
  finish_up-UpEnds (go s) h (nets, vols, o) = record {
    containers = o.containers_kept;
    started = o.started;
    volumes = o.is_open.volumes_kept;
    networks = o.is_open.networks_kept;
  }
  finish_up-UpEnds (stop r) h o = o

  up_checked-UpEnds :
      (ss : List Service) (conflict : Option AppError) (h : History)
      → ledger h ≡ ledger []
      → UpEnds (up_checked d p ss conflict h)
  unfolding up_checked
  up_checked-UpEnds ss (some e) h l = l
  up_checked-UpEnds ss none h l = finish_up-UpEnds _ _ (up_phases-Proceeds _ h l)

  up-UpEnds : (services : List String) → UpEnds (up d p services [])
  unfolding up
  up-UpEnds services = up_checked-UpEnds _ _ _ (ledger-check_port_conflicts d _ [])

-- The volumes that existed already are among those that a run counts as its own.
found-ensured :
    (n : String) (h : History) → In n (ledger h).volumes_found → In n (ledger h).volumes_ensured
found-ensured n [] i = i
found-ensured n (Event.volume_create m driver labels none ∷ h) i = inr (found-ensured n h i)
found-ensured n (Event.volume_create m driver labels (some e) ∷ h) i =
    elim (Bool-cases (contains_text e "already exists")) [
      | inl found ↦ ground (arith, found-ensured n h, post_volume_found m e (ledger h) found)
      | inr other ↦ ground (arith, found-ensured n h, post_volume_refused m e (ledger h) other)
    ]
found-ensured n (e ∷ h) i = ground (arith, found-ensured n h)

module _ (d : Daemon) (p : Project) (services : List String) {r : OperationResult} {h : History}
    (ran : up d p services [] ≡ (ok r, h)) where
  ends : Ends r.status (ledger h)
  ends = rw ran at (up-UpEnds d p services)

  -- When Up answers that it rolled back, exactly what it created is removed again: the containers in
  -- the reverse order of their creation, the networks in the order of theirs, and so the volumes,
  -- among which it counts those that the daemon said exist already.
  pub up-rolled_back :
      r.status ≡ rolled_back
      → ((ledger h).containers_removed ≡ reverse (ledger h).containers_created)
        × ((ledger h).volumes_removed ≡ (ledger h).volumes_ensured)
        × ((ledger h).networks_removed ≡ (ledger h).networks_created)
  up-rolled_back e = let u = rw e at ends in (u.containers, u.volumes, u.networks)

  -- A rollback of Up removes every volume that the daemon said exists already.
  up-rolled_back_found :
      (n : String)
      → r.status ≡ rolled_back
      → In n (ledger h).volumes_found
      → In n (ledger h).volumes_removed
  up-rolled_back_found n e i = rw (up-rolled_back e).1 (found-ensured n h i)

  -- When Up answers that it was cancelled, the containers that it created are removed in the reverse
  -- order, and no network and no volume is removed.
  pub up-cancelled :
      r.status ≡ cancelled
      → ((ledger h).containers_removed ≡ reverse (ledger h).containers_created)
        × ((ledger h).volumes_removed ≡ [])
        × ((ledger h).networks_removed ≡ [])
  up-cancelled e = let u = rw e at ends in (u.containers, u.volumes, u.networks)

  -- When Up answers that it succeeded, nothing was removed, and the containers that it started are
  -- those that it created, in that order.
  pub up-succeeded :
      r.status ≡ succeeded
      → ((ledger h).containers_removed ≡ [])
        × ((ledger h).volumes_removed ≡ [])
        × ((ledger h).networks_removed ≡ [])
        × ((ledger h).containers_started ≡ (ledger h).containers_created)
  up-succeeded e = let u = rw e at ends in (u.containers, u.volumes, u.networks, u.started)

  -- A result of Up has one of three statuses: it succeeded, was cancelled or was rolled back.
  up-status : (r.status ≡ succeeded) ⊎ (r.status ≡ cancelled) ⊎ (r.status ≡ rolled_back)
  up-status = status_of r.status ends
    where
      status_of :
          (s : OpStatus) → Ends s (ledger h) → (s ≡ succeeded) ⊎ (s ≡ cancelled) ⊎ (s ≡ rolled_back)
      status_of succeeded o = inl refl
      status_of cancelled o = inr (inl refl)
      status_of rolled_back o = inr (inr refl)
      status_of pending o = absurd o
      status_of running o = absurd o
      status_of failed o = absurd o

-- When Up answers with an error, it has created, started, stopped and removed nothing.
pub up-err :
    (d : Daemon) (p : Project) (services : List String) {e : AppError} {h : History}
    → up d p services [] ≡ (err e, h)
    → ledger h ≡ ledger []
up-err d p services ran = rw ran at (up-UpEnds d p services)
