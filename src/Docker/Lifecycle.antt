-- ===== src/Docker/Lifecycle.antt =====
-- Operations.Down, Stop, Start, Restart and GetProjectStatus of internal/docker/operations.go.
pub mod Calls
pub mod Effects
pub mod Status
use compose_cockpit.Base.{
  ℕ, String, Bool, true, false, not, ◌&&◌, Option, none, some, List, [], ◌∷◌, ◌++◌, same, ◌==◌,
  length, filter, if◌then◌else◌,
}
use compose_cockpit.Base.Dict.{Dict, insert}
use compose_cockpit.Base.Results.{Result, ok, err}
use compose_cockpit.Base.Text.{cat}
use compose_cockpit.Domain.Errors.{GoError, Message, text, other}
use compose_cockpit.Domain.Operation.{succeeded, failed, cancelled, OpStep, OperationResult}
use compose_cockpit.Domain.Project.{Project, ProjectStatus, running, partial, stopped}
use compose_cockpit.Docker.Client.{ContainerInfo, NetworkInfo, Daemon}
use compose_cockpit.Docker.History.{
  M, return, ◌>>=◌, container_list, container_stop, container_start, container_remove, network_list,
  network_remove, ctx_err,
}
use compose_cockpit.Docker.Resolve.{label, project_label, service_label, selected, is_empty}
use compose_cockpit.Docker.Up.Steps.{step_of, result_of}

-- The service that a container belongs to, by its label.
unfoldable pub service_name : ContainerInfo → String
service_name c = label service_label c.labels

-- A step that failed if the call answered an error.
step_from : String → String → Option String → OpStep
step_from service action none = step_of service action succeeded none
step_from service action (some e) = step_of service action failed (some (text e))

step_ok : String → String → OpStep
step_ok service action = step_of service action succeeded none

unfoldable pub is_running : ContainerInfo → Bool
is_running c = same c.state "running"

-- The containers that each loop does not skip.
abbrev pub chosen : List String → ContainerInfo → Bool
chosen services c = selected services (service_name c)

abbrev pub to_stop : List String → ContainerInfo → Bool
to_stop services c = chosen services c && is_running c

abbrev pub to_start : List String → ContainerInfo → Bool
to_start services c = chosen services c && not (is_running c)

-- The filter of getProjectContainers.
pub project_filter : Project → Dict (List String)
project_filter p = ("label", cat project_label (cat "=" p.id) ∷ []) ∷ []

abbrev succeed : List OpStep → Result GoError OperationResult
succeed steps = ok (result_of succeeded none steps)

module _ (d : Daemon) where
  pub get_project_containers : Project → M (Result String (List ContainerInfo))
  unfolding project_filter
  get_project_containers p = container_list d (project_filter p)

  module _ (services : List String) where
    pub stop_loop : List ContainerInfo → List OpStep → M (List OpStep)
    unfolding step_from
    stop_loop [] steps = return steps
    stop_loop (c ∷ cs) steps = elim (to_stop services c) [
      | false ↦ stop_loop cs steps
      | true ↦ do
        r ← container_stop d c.id
        stop_loop cs (steps ++ step_from (service_name c) "stop" r ∷ [])
    ]

    pub start_loop : List ContainerInfo → List OpStep → M (List OpStep)
    unfolding step_from
    start_loop [] steps = return steps
    start_loop (c ∷ cs) steps = elim (to_start services c) [
      | false ↦ start_loop cs steps
      | true ↦ do
        r ← container_start d c.id
        start_loop cs (steps ++ step_from (service_name c) "start" r ∷ [])
    ]

    -- The error of the stop is ignored.
    pub restart_loop : List ContainerInfo → List OpStep → M (List OpStep)
    unfolding step_from step_ok
    restart_loop [] steps = return steps
    restart_loop (c ∷ cs) steps = elim (chosen services c) [
      | false ↦ restart_loop cs steps
      | true ↦ do
        _ ← container_stop d c.id
        r ← container_start d c.id
        restart_loop cs
            (steps ++ step_ok (service_name c) "stop" ∷ step_from (service_name c) "start" r ∷ [])
    ]

    -- The flag says that the loop ended early because the context was cancelled.
    pub down_loop : List ContainerInfo → List OpStep → M (List OpStep × Bool)
    unfolding step_from step_ok
    down_loop [] steps = return (steps, false)
    down_loop (c ∷ cs) steps = elim (chosen services c) [
      | false ↦ down_loop cs steps
      | true ↦ do
        over ← ctx_err d
        elim over [
          | true ↦ return (steps, true)
          | false ↦ do
            _ ← container_stop d c.id
            r ← container_remove d c.id
            down_loop cs (
                steps
                ++ step_ok (service_name c) "stop" ∷ step_from (service_name c) "remove" r ∷ [])
        ]
    ]

  -- A network carries the project's label.
  owned : Project → NetworkInfo → Bool
  owned p n = same (label project_label n.labels) p.id

  network_loop : Project → List NetworkInfo → List OpStep → M (List OpStep)
  unfolding owned step_ok
  network_loop p [] steps = return steps
  network_loop p (n ∷ ns) steps = elim (owned p n) [
    | false ↦ network_loop p ns steps
    | true ↦ do
      _ ← network_remove d n.id
      network_loop p ns (steps ++ step_ok "" (cat "remove_network:" n.name) ∷ [])
  ]

  -- `networks, _ := NetworkList(ctx)`: an error gives no networks.
  listed : Result String (List NetworkInfo) → List NetworkInfo
  listed (ok ns) = ns
  listed (err e) = []

  down_networks : Project → List String → List OpStep → M (Result GoError OperationResult)
  unfolding network_loop listed
  down_networks p [] steps = do
    r ← network_list d
    steps' ← network_loop p (listed r) steps
    return (succeed steps')
  down_networks p (s ∷ ss) steps = return (succeed steps)

  -- After the loop over the containers.
  down_rest : Project → List String → List OpStep × Bool → M (Result GoError OperationResult)
  unfolding down_networks
  down_rest p services (steps, true) = return (ok (result_of cancelled none steps))
  down_rest p services (steps, false) = down_networks p services steps

  down_listed :
      Project
      → List String
      → Result String (List ContainerInfo)
      → M (Result GoError OperationResult)
  unfolding down_loop down_rest
  down_listed p services (err e) = return (err (other (text e)))
  down_listed p services (ok cs) = do r ← down_loop services cs []; down_rest p services r

  unfoldable pub down : Project → List String → M (Result GoError OperationResult)
  unfolding get_project_containers down_listed
  down p services = do r ← get_project_containers p; down_listed p services r

  -- The shape of Stop, Start and Restart: list the containers, run the loop, and succeed.
  run_loop :
      (List ContainerInfo → List OpStep → M (List OpStep))
      → Result String (List ContainerInfo)
      → M (Result GoError OperationResult)
  run_loop loop (err e) = return (err (other (text e)))
  run_loop loop (ok cs) = do steps ← loop cs []; return (succeed steps)

  unfoldable pub stop : Project → List String → M (Result GoError OperationResult)
  unfolding get_project_containers run_loop stop_loop
  stop p services = do r ← get_project_containers p; run_loop (stop_loop services) r

  unfoldable pub start : Project → List String → M (Result GoError OperationResult)
  unfolding get_project_containers run_loop start_loop
  start p services = do r ← get_project_containers p; run_loop (start_loop services) r

  unfoldable pub restart : Project → List String → M (Result GoError OperationResult)
  unfolding get_project_containers run_loop restart_loop
  restart p services = do r ← get_project_containers p; run_loop (restart_loop services) r

-- The status of a project by its containers, and `containerMap`.
pub status_of : List ContainerInfo → ProjectStatus
status_of [] = stopped
status_of (c ∷ cs) =
    let count = length (filter is_running (c ∷ cs)) in
    if count == length (c ∷ cs) then running else if count == 0 then stopped else partial

pub container_map : List ContainerInfo → Dict ContainerInfo → Dict ContainerInfo
container_map [] m = m
container_map (c ∷ cs) m = container_map cs (insert (service_name c) c m)

pub get_project_status : Daemon → Project → M (Result GoError (ProjectStatus × Dict ContainerInfo))
unfolding get_project_containers status_of container_map
get_project_status d p = do
  r ← get_project_containers d p
  elim r [
    | err e ↦ return (err (other (text e)))
    | ok cs ↦ return (ok (status_of cs, container_map cs []))
  ]
