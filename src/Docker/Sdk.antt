-- ===== src/Docker/Sdk.antt =====
-- internal/docker/sdk_client.go: what sdkClient asks of the Docker SDK and makes of its answers. The SDK
-- is outside the repository: each of its calls is an argument, a function from what is asked.
pub mod Answers
pub mod Build
pub mod Ports
pub mod Stats
use Prim.Native.Char.{Char}
use Prim.Native.String
use compose_cockpit.Base.{
  ℕ, ◌/◌, String, Bool, true, false, Option, none, some, List, [], ◌∷◌, ◌++◌, map, same,
  if◌then◌else◌,
}
use compose_cockpit.Base.Dict.{Dict, insert}
use compose_cockpit.Base.Results.{Result, ok, err}
use compose_cockpit.Base.Text.{is_char}
use compose_cockpit.Docker.Client.{
  PortBinding, MountConfig, ContainerCreateConfig, ContainerInfo, NetworkInfo, VolumeInfo,
  ImageBuildOpts,
}

-- nat.PortBinding
pub record HostBinding : Type 0 where
  pub host_ip : String
  pub host_port : String

-- `exposedPorts` and `portMap`
pub record PortMaps : Type 0 where
  pub exposed : Dict (Unit {0})
  pub bindings : Dict (List HostBinding)

-- mount.Type
pub data MountKind : Type 0 where
  type_bind type_tmpfs type_volume : MountKind

-- mount.Mount
pub record Mount : Type 0 where
  pub kind : MountKind
  pub source : String
  pub target : String
  pub read_only : Bool

-- container.RestartPolicy
pub data RestartPolicy : Type 0 where
  always unless_stopped on_failure disabled : RestartPolicy

-- The arguments of the SDK's ContainerCreate that the code sets. A command or an entrypoint that is
-- empty is left nil.
pub record CreateSpec : Type 0 where
  pub name : String
  pub image : String
  pub labels : Dict String
  pub env : List String
  pub cmd : List String
  pub entrypoint : List String
  pub ports : PortMaps
  pub mounts : List Mount
  pub restart_policy : RestartPolicy
  pub endpoints : List String

unfoldable pub mount_kind : String → MountKind
mount_kind t =
    if same t "bind" then type_bind else if same t "tmpfs" then type_tmpfs else type_volume

-- buildMounts
unfoldable pub build_mounts : List MountConfig → List Mount
unfolding mount_kind
build_mounts [] = []
build_mounts (v ∷ volumes) =
    record {
      kind = mount_kind v.type;
      source = v.source;
      target = v.target;
      read_only = v.read_only;
    }
    ∷ build_mounts volumes

-- buildRestartPolicy
unfoldable pub build_restart_policy : String → RestartPolicy
build_restart_policy policy =
    if same policy "always"
    then always
    else if same policy "unless-stopped"
    then unless_stopped
    else if same policy "on-failure"
    then on_failure
    else disabled

-- The first network alone.
unfoldable pub first_network : List String → List String
first_network [] = []
first_network (n ∷ networks) = n ∷ []

-- `new_port` is nat.NewPort of a protocol and a port, with the error that the code drops.
module _ (new_port : String → String → String) where
  -- The loop of buildPortBindings.
  unfoldable pub bind_ports : List PortBinding → PortMaps → PortMaps
  bind_ports [] m = m
  bind_ports (p ∷ ports) m =
      let port = new_port p.protocol p.container_port in
      bind_ports ports (record {
        exposed = insert port tt m.exposed;
        bindings =
            insert port (record { host_ip = p.host_ip; host_port = p.host_port } ∷ []) m.bindings;
      })

  unfoldable pub build_port_bindings : List PortBinding → PortMaps
  unfolding bind_ports
  build_port_bindings ports = bind_ports ports (record { exposed = []; bindings = [] })

  unfoldable pub create_spec : ContainerCreateConfig → CreateSpec
  unfolding build_port_bindings build_mounts build_restart_policy first_network
  create_spec cfg = record {
    name = cfg.name;
    image = cfg.image;
    labels = cfg.labels;
    env = cfg.env;
    cmd = cfg.cmd;
    entrypoint = cfg.entrypoint;
    ports = build_port_bindings cfg.ports;
    mounts = build_mounts cfg.volumes;
    restart_policy = build_restart_policy cfg.restart_policy;
    endpoints = first_network cfg.networks;
  }

  -- ContainerCreate: the identifier of the response.
  pub container_create :
      (CreateSpec → Result String String) → ContainerCreateConfig → Result String String
  unfolding create_spec
  container_create create cfg = create (create_spec cfg)

-- ContainerStop: a timeout in nanoseconds is asked for in whole seconds.
pub container_stop : (String → Option ℕ → Option String) → String → Option ℕ → Option String
container_stop stop id none = stop id none
container_stop stop id (some timeout) = stop id (some (timeout / 1000000000))
