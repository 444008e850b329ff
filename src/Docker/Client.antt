-- ===== src/Docker/Client.antt =====
-- internal/docker/client.go: the data that the Docker client exchanges with the daemon, and the
-- daemon itself as a parameter. The daemon is not part of the repository: an answer is any function
-- of the history of the calls made so far, which also covers what other programs do in between.
use Prim.Native.String.{String}
use mathlib.Core.Bool.{Bool}
use mathlib.Core.Option.{Option}
use mathlib.Core.List.{List}
use compose_cockpit.Base.Dict.{Dict}
use compose_cockpit.Base.Results.{Result}

pub record PortBinding : Type 0 where
  pub host_ip : String
  pub host_port : String
  pub container_port : String
  pub protocol : String

pub record MountConfig : Type 0 where
  pub type : String
  pub source : String
  pub target : String
  pub read_only : Bool

pub record ContainerCreateConfig : Type 0 where
  pub name : String
  pub image : String
  pub labels : Dict String
  pub env : List String
  pub cmd : List String
  pub entrypoint : List String
  pub ports : List PortBinding
  pub volumes : List MountConfig
  pub networks : List String
  pub restart_policy : String

pub record ContainerInfo : Type 0 where
  pub id : String
  pub name : String
  pub state : String
  pub labels : Dict String
  pub ports : List PortBinding

pub record NetworkInfo : Type 0 where
  pub id : String
  pub name : String
  pub labels : Dict String

pub record VolumeInfo : Type 0 where
  pub name : String
  pub labels : Dict String

pub record ImageBuildOpts : Type 0 where
  pub context : String
  pub dockerfile : String
  pub tags : List String
  pub build_args : Dict String
  pub target : String

-- A call of the client with the daemon's answer, where the answer matters later on. An error is the
-- text of the Go error; `none` is a nil error.
pub data Event : Type 0 where
  container_create : ContainerCreateConfig → Result String String → Event
  container_start : String → Option String → Event
  container_stop : String → Event
  container_remove : String → Event
  container_list : Dict (List String) → Event
  network_create : String → String → Dict String → Result String String → Event
  network_remove : String → Event
  network_list : Event
  volume_create : String → String → Dict String → Option String → Event
  volume_remove : String → Event
  volume_list : Event
  image_pull : String → Event
  image_build : ImageBuildOpts → Event
  image_exists : String → Event
  ctx_err : Event
  listen : String → String → Event

-- The calls made so far, the last one first.
abbrev pub History : Type 0
History = List Event

-- What the surroundings answer after a history: the daemon, `ctx.Err()`, and `net.Listen` on a host
-- address and port (`true` is success). `join_path` is filepath.Join, and `range_keys` the order in
-- which a `range` over the map with the given keys visits them.
pub record Daemon : Type 0 where
  pub on_container_create : History → ContainerCreateConfig → Result String String
  pub on_container_start : History → String → Option String
  pub on_container_stop : History → String → Option String
  pub on_container_remove : History → String → Option String
  pub on_container_list : History → Dict (List String) → Result String (List ContainerInfo)
  pub on_network_create : History → String → String → Dict String → Result String String
  pub on_network_remove : History → String → Option String
  pub on_network_list : History → Result String (List NetworkInfo)
  pub on_volume_create : History → String → String → Dict String → Option String
  pub on_volume_remove : History → String → Option String
  pub on_volume_list : History → Result String (List VolumeInfo)
  pub on_image_pull : History → String → Option String
  pub on_image_build : History → ImageBuildOpts → Option String
  pub on_image_exists : History → String → Result String Bool
  pub on_ctx_err : History → Bool
  pub on_listen : History → String → String → Bool
  pub join_path : String → String → String
  pub range_keys : List String → List String
