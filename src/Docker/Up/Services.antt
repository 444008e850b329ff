-- ===== src/Docker/Up/Services.antt =====
-- Phase 4 of Operations.Up (internal/docker/operations.go): images and containers.
pub mod Progress
use package.text.Mathlib.Text.{starts_with}
use compose_cockpit.Base.{
  String, Bool, true, false, Option, none, some, List, [], ◌∷◌, ◌++◌, same, if◌then◌else◌,
}
use compose_cockpit.Base.Results.{Result, ok, err}
use compose_cockpit.Base.Text.{cat}
use compose_cockpit.Domain.Errors.{
  Code, Message, text, build_failed, pull_failed, container_failed, docker_unavailable, internal,
  image_pull_failed,
}
use compose_cockpit.Domain.Operation.{succeeded, cancelled, OpStep}
use compose_cockpit.Domain.Project.{Project, Service, BuildConfig}
use compose_cockpit.Docker.Client.{ContainerCreateConfig, ImageBuildOpts, Daemon}
use compose_cockpit.Docker.History.{
  M, return, ◌>>=◌, ◌>>◌, container_create, container_start, container_remove, image_pull,
  image_build, image_exists, ctx_err,
}
use compose_cockpit.Docker.Resolve.{
  resolve_volume_mounts, resolve_networks, env_map_to_slice, convert_ports, container_labels,
}
use compose_cockpit.Docker.Rollback.{rollback_containers, rollback_networks, rollback_volumes}
use compose_cockpit.Docker.Up.Steps.{
  Flow, go, stop, and_then, step_of, result_of, rolled_back_at, done_step,
}

image_name : Project → Service → String
image_name p s =
    let built : String = elim s.build [
      | none ↦ ""
      | some b ↦ cat p.name (cat "-" (cat s.name ":latest"))
    ] in
    if same s.image "" then built else s.image

abbrev skipped_step : Service → OpStep
skipped_step s = step_of s.name "skip_no_image" succeeded (some (text "no image or build defined"))

create_config : Project → Service → String → ContainerCreateConfig
create_config p s image = record {
  name = cat p.name (cat "-" (cat s.name "-1"));
  image = image;
  labels = container_labels p s;
  env = env_map_to_slice s.environment;
  cmd = s.command;
  entrypoint = s.entrypoint;
  ports = convert_ports s.ports;
  volumes = resolve_volume_mounts p s.volumes;
  networks = resolve_networks p s.networks;
  restart_policy = s.restart;
}

-- `nets` and `vols` are what phases 2 and 3 recorded.
module _ (d : Daemon) (p : Project) (nets vols : List String) where
  -- Phase 4, a failure: containers, volumes and networks are rolled back.
  abort_service :
      {A : Type 0}
      → String
      → String
      → Message
      → Code
      → Message
      → List OpStep
      → List String
      → M (Flow A)
  abort_service service action e code message steps ctrs = do
    rollback_containers d ctrs
    rollback_volumes d vols
    rollback_networks d nets
    return (stop (rolled_back_at service action e code message steps))

  build_opts : BuildConfig → String → ImageBuildOpts
  build_opts b image = record {
    context = if starts_with b.context "/" then b.context else d.join_path p.path b.context;
    dockerfile = b.dockerfile;
    tags = image ∷ [];
    build_args = b.args;
    target = b.target;
  }

  built : Service → List OpStep → List String → Option String → M (Flow (List OpStep))
  unfolding abort_service
  built s steps ctrs none = return (go (done_step s.name "build" steps))
  built s steps ctrs (some e) =
      abort_service s.name "build" (text e) internal (build_failed s.name e) steps ctrs

  pulled : Service → String → List OpStep → List String → Option String → M (Flow (List OpStep))
  unfolding abort_service
  pulled s image steps ctrs none = return (go (done_step s.name "pull" steps))
  pulled s image steps ctrs (some e) =
      abort_service s.name "pull" (text e) image_pull_failed (pull_failed image e) steps ctrs

  -- After ImageExists.
  pull_missing :
      Service → String → List OpStep → List String → Result String Bool → M (Flow (List OpStep))
  unfolding abort_service pulled
  pull_missing s image steps ctrs (err e) =
      abort_service s.name "pull" (text e) docker_unavailable (text e) steps ctrs
  pull_missing s image steps ctrs (ok true) = return (go (done_step s.name "pull" steps))
  pull_missing s image steps ctrs (ok false) = do
    r ← image_pull d image
    pulled s image steps ctrs r

  -- Build the image of a service with a build section; otherwise pull it if it is missing.
  prepare_image :
      Service → String → List OpStep → List String → Option BuildConfig → M (Flow (List OpStep))
  unfolding built pull_missing build_opts
  prepare_image s image steps ctrs (some b) = do
    r ← image_build d (build_opts b image)
    built s steps ctrs r
  prepare_image s image steps ctrs none = do
    r ← image_exists d image
    pull_missing s image steps ctrs r

  -- After ContainerStart. A container that does not start is removed before the others.
  container_answered :
      Service
      → String
      → List OpStep
      → List String
      → Option String
      → M (Flow (List OpStep × List String))
  unfolding abort_service
  container_answered s id steps ctrs none =
      return (go (done_step s.name "start" steps, ctrs ++ id ∷ []))
  container_answered s id steps ctrs (some e) = do
    _ ← container_remove d id
    abort_service s.name "start" (text e) container_failed (text e) steps ctrs

  -- After ContainerCreate.
  container_made :
      Service
      → List OpStep
      → List String
      → Result String String
      → M (Flow (List OpStep × List String))
  unfolding abort_service container_answered
  container_made s steps ctrs (err e) =
      abort_service s.name "create" (text e) container_failed (text e) steps ctrs
  container_made s steps ctrs (ok id) = do
    r ← container_start d id
    container_answered s id (done_step s.name "create" steps) ctrs r

  create_container :
      Service → String → List String → List OpStep → M (Flow (List OpStep × List String))
  unfolding container_made create_config
  create_container s image ctrs steps = do
    r ← container_create d (create_config p s image)
    container_made s steps ctrs r

  -- A service with an image.
  deploy : Service → String → List OpStep → List String → M (Flow (List OpStep × List String))
  unfolding prepare_image create_container
  deploy s image steps ctrs = do
    ready ← prepare_image s image steps ctrs s.build
    and_then ready (create_container s image ctrs)

  -- After the context's check. A cancelled context rolls the containers back, and nothing else.
  service_checked :
      Service → List OpStep → List String → Bool → M (Flow (List OpStep × List String))
  unfolding deploy image_name
  service_checked s steps ctrs true = do
    rollback_containers d ctrs
    return (stop (result_of cancelled none steps))
  service_checked s steps ctrs false = elim (same (image_name p s) "") [
    | true ↦ return (go (steps ++ skipped_step s ∷ [], ctrs))
    | false ↦ deploy s (image_name p s) steps ctrs
  ]

  -- Phase 4, one service.
  up_service : Service → List OpStep → List String → M (Flow (List OpStep × List String))
  unfolding service_checked
  up_service s steps ctrs = do over ← ctx_err d; service_checked s steps ctrs over

  unfoldable pub up_services :
      List Service → List OpStep → List String → M (Flow (List OpStep × List String))
  unfolding up_service
  up_services [] steps ctrs = return (go (steps, ctrs))
  up_services (s ∷ ss) steps ctrs = do
    r ← up_service s steps ctrs
    and_then r (λ x. up_services ss x.0 x.1)
