-- ===== src/Docker/Up/Volumes/Progress.antt =====
-- Phase 3 keeps the record of what was created, or ends with the volumes and networks removed.
use mathlib.Core.List.{reverse-append}
use compose_cockpit.Base.{String, Option, none, some, List, [], ◌∷◌, ◌++◌, ap, Bool-cases, inl, inr}
use compose_cockpit.Base.Dict.{Dict}
use compose_cockpit.Base.Text.{cat}
use compose_cockpit.Domain.Errors.{Message}
use compose_cockpit.Domain.Operation.{OpStep}
use compose_cockpit.Domain.Project.{Project, Volume}
use compose_cockpit.Docker.Client.{Event, History, Daemon}
use compose_cockpit.Docker.Conflicts.Ledgers.{ledger-check_volume_conflict}
use compose_cockpit.Docker.History.{
  Ledger, ledger, post_volume_found, post_volume_refused, contains_text,
}
use compose_cockpit.Docker.Resolve.{volume_name}
use compose_cockpit.Docker.Up.Outcome.{Proceeds, Proceeds-and_then, Holds, rollback_volumes-Undone}
use compose_cockpit.Docker.Up.Volumes.{
  volume_labels, abort_volume, volume_answered, volume_checked, up_volume, up_volumes,
}

-- One more volume, recorded last. `found` are those of them that existed before.
Holds-volume :
    (nets vols found : List String) (name : String) {l : Ledger}
    → Holds nets vols [] l
    → Holds nets
        (vols ++ name ∷ [])
        []
        (record l { volumes_ensured = name ∷ l.volumes_ensured; volumes_found = found })
Holds-volume nets vols found name o = record {
  is_open = record {
    networks = o.is_open.networks;
    volumes = rw (reverse-append vols (name ∷ [])) (ap (◌∷◌ name) o.is_open.volumes);
    containers = o.is_open.containers;
    networks_kept = o.is_open.networks_kept;
    volumes_kept = o.is_open.volumes_kept;
  };
  containers_kept = o.containers_kept;
  started = o.started;
}

-- In phase 3 no container has been created.
abbrev pub VolumesHold : List String → List OpStep × List String → Ledger → Type 0
VolumesHold nets s l = Holds nets s.1 [] l

module _ (d : Daemon) (p : Project) (nets : List String) (steps : List OpStep)
    (vols : List String) where
  volume_answered-Proceeds :
      (action name driver : String) (labels : Dict String) (r : Option String) (h : History)
      → Holds nets vols [] (ledger h)
      → Proceeds (VolumesHold nets) (
          volume_answered d p nets action name steps vols r
            (Event.volume_create name driver labels r ∷ h))
  unfolding volume_answered abort_volume
  volume_answered-Proceeds action name driver labels none h o = Holds-volume nets vols _ name o
  volume_answered-Proceeds action name driver labels (some e) h o =
      elim (Bool-cases (contains_text e "already exists")) [
        | inl found ↦
            rw (found, volume_answered)
              (rw (post_volume_found name e (ledger h) found) (Holds-volume nets vols _ name o))
        | inr other ↦
            let refused = post_volume_refused name e (ledger h) other in
            rw (other, volume_answered)
              (rollback_volumes-Undone d nets vols _ (rw refused o.is_open))
      ]

  volume_checked-Proceeds :
      (name : String) (def : Volume) (c : Option Message) (h : History)
      → Holds nets vols [] (ledger h)
      → Proceeds (VolumesHold nets) (volume_checked d p nets name def steps vols c h)
  unfolding volume_checked abort_volume
  volume_checked-Proceeds name def (some e) h o = rollback_volumes-Undone d nets vols h o.is_open
  volume_checked-Proceeds name def none h o =
      volume_answered-Proceeds (cat "create_volume:" name) (volume_name p name def) def.driver
        (volume_labels p name)
        (d.on_volume_create h (volume_name p name def) def.driver (volume_labels p name)) h o

  up_volume-Proceeds :
      (name : String) (def : Volume) (h : History)
      → Holds nets vols [] (ledger h)
      → Proceeds (VolumesHold nets) (up_volume d p nets name def steps vols h)
  unfolding up_volume
  up_volume-Proceeds name def h o =
      volume_checked-Proceeds name def _ _ (rw ledger-check_volume_conflict o)

module _ (d : Daemon) (p : Project) (nets : List String) where
  pub up_volumes-Proceeds :
      (defs : Dict Volume) (steps : List OpStep) (vols : List String) (h : History)
      → Holds nets vols [] (ledger h)
      → Proceeds (VolumesHold nets) (up_volumes d p nets defs steps vols h)
  unfolding up_volumes
  up_volumes-Proceeds [] steps vols h o = o
  up_volumes-Proceeds ((name, def) ∷ rest) steps vols h o = elim (Bool-cases def.external) [
    | inl e ↦ rw (e, up_volumes) (up_volumes-Proceeds rest steps vols h o)
    | inr e ↦
        rw (e, up_volumes)
          (Proceeds-and_then (VolumesHold nets) (VolumesHold nets) _ _ _
            (up_volume-Proceeds d p nets steps vols name def h o)
            (λ s h' o'. up_volumes-Proceeds rest s.0 s.1 h' o'))
  ]
