-- ===== src/Docker/Up.antt =====
-- Operations.Up of internal/docker/operations.go: its phases are the child modules.
pub mod Steps
pub mod Outcome
pub mod Networks
pub mod Volumes
pub mod Services
pub mod Endings
use compose_cockpit.Base.{String, Option, none, some, List, [], map}
use compose_cockpit.Base.Results.{Result, ok, err}
use compose_cockpit.Domain.Errors.{AppError}
use compose_cockpit.Domain.Operation.{succeeded, OpStep, OperationResult}
use compose_cockpit.Domain.Project.{Project, Service}
use compose_cockpit.Docker.Client.{Daemon}
use compose_cockpit.Docker.Conflicts.{check_port_conflicts}
use compose_cockpit.Docker.History.{M, return, ◌>>=◌}
use compose_cockpit.Docker.Resolve.{filter_services}
use compose_cockpit.Docker.Sort.{topological_sort}
use compose_cockpit.Docker.Up.Steps.{Flow, go, stop, and_then, result_of}
use compose_cockpit.Docker.Up.Networks.{up_networks}
use compose_cockpit.Docker.Up.Volumes.{up_volumes}
use compose_cockpit.Docker.Up.Services.{up_services}

module _ (d : Daemon) (p : Project) where
  -- Phases 2 to 4.
  up_phases : List Service → M (Flow (List OpStep × List String))
  up_phases services = do
    n ← up_networks d p p.networks [] []
    and_then n (λ s2. do
      v ← up_volumes d p s2.1 p.volumes s2.0 []
      and_then v (λ s3. up_services d p s2.1 s3.1 services s3.0 []))

  finish_up : Flow (List OpStep × List String) → Result AppError OperationResult
  finish_up (go s) = ok (result_of succeeded none s.0)
  finish_up (stop r) = ok r

  -- After checkPortConflicts.
  up_checked : List Service → Option AppError → M (Result AppError OperationResult)
  unfolding up_phases finish_up
  up_checked targets (some e) = return (err e)
  up_checked targets none = do
    r ← up_phases (topological_sort targets (d.range_keys (map (λ s. s.name) targets)))
    return (finish_up r)

  unfoldable pub up : List String → M (Result AppError OperationResult)
  unfolding up_checked
  up services = do
    conflict ← check_port_conflicts d (filter_services p services)
    up_checked (filter_services p services) conflict
