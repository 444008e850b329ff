-- ===== src/Docker/Up/Volumes.antt =====
-- Phase 3 of Operations.Up (internal/docker/operations.go): the volumes.
pub mod Progress
use compose_cockpit.Base.{String, true, false, Option, none, some, List, [], ◌∷◌, ◌++◌}
use compose_cockpit.Base.Dict.{Dict}
use compose_cockpit.Base.Text.{cat}
use compose_cockpit.Domain.Errors.{Message, text, volume_conflict}
use compose_cockpit.Domain.Operation.{OpStep}
use compose_cockpit.Domain.Project.{Project, Volume}
use compose_cockpit.Docker.Client.{Daemon}
use compose_cockpit.Docker.Conflicts.{check_volume_conflict}
use compose_cockpit.Docker.History.{M, return, ◌>>=◌, ◌>>◌, contains_text, volume_create}
use compose_cockpit.Docker.Resolve.{project_label, volume_name}
use compose_cockpit.Docker.Rollback.{rollback_networks, rollback_volumes}
use compose_cockpit.Docker.Up.Steps.{Flow, go, stop, and_then, rolled_back_at, done_step}

-- The labels that a volume is created with.
volume_labels : Project → String → Dict String
volume_labels p name = (project_label, p.id) ∷ ("com.composecockpit.volume", name) ∷ []

-- `nets` are the networks that phase 2 created.
module _ (d : Daemon) (p : Project) (nets : List String) where
  -- Phase 3, a failure: the volumes and the networks are rolled back.
  abort_volume : String → Message → List OpStep → List String → M (Flow (List OpStep × List String))
  abort_volume action e steps vols = do
    rollback_volumes d vols
    rollback_networks d nets
    return (stop (rolled_back_at "" action e volume_conflict e steps))

  -- After VolumeCreate. A volume that exists already is recorded too.
  volume_answered :
      String
      → String
      → List OpStep
      → List String
      → Option String
      → M (Flow (List OpStep × List String))
  unfolding abort_volume
  volume_answered action actual steps vols none =
      return (go (done_step "" action steps, vols ++ actual ∷ []))
  volume_answered action actual steps vols (some e) = elim (contains_text e "already exists") [
    | true ↦ return (go (done_step "" action steps, vols ++ actual ∷ []))
    | false ↦ abort_volume action (text e) steps vols
  ]

  -- After checkVolumeConflict.
  volume_checked :
      String
      → Volume
      → List OpStep
      → List String
      → Option Message
      → M (Flow (List OpStep × List String))
  unfolding abort_volume volume_answered volume_labels
  volume_checked name def steps vols (some e) =
      abort_volume (cat "create_volume:" name) e steps vols
  volume_checked name def steps vols none = do
    r ← volume_create d (volume_name p name def) def.driver (volume_labels p name)
    volume_answered (cat "create_volume:" name) (volume_name p name def) steps vols r

  -- Phase 3, one volume that is not external.
  up_volume : String → Volume → List OpStep → List String → M (Flow (List OpStep × List String))
  unfolding volume_checked
  up_volume name def steps vols = do
    conflict ← check_volume_conflict d (volume_name p name def) p.id
    volume_checked name def steps vols conflict

  unfoldable pub up_volumes :
      Dict Volume → List OpStep → List String → M (Flow (List OpStep × List String))
  unfolding up_volume
  up_volumes [] steps vols = return (go (steps, vols))
  up_volumes ((name, def) ∷ rest) steps vols = elim def.external [
    | true ↦ up_volumes rest steps vols
    | false ↦ do r ← up_volume name def steps vols; and_then r (λ s. up_volumes rest s.0 s.1)
  ]
