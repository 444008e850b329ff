-- ===== src/Domain/Project.antt =====
-- internal/domain/project.go: projects, services, networks and volumes.
use Prim.Native.String.{String}
use mathlib.Core.Bool.{Bool}
use mathlib.Core.Option.{Option}
use mathlib.Core.List.{List}
use compose_cockpit.Base.Dict.{Dict}

pub data ProjectStatus : Type 0 where
  running partial stopped unknown : ProjectStatus

pub record BuildConfig : Type 0 where
  pub context : String
  pub dockerfile : String
  pub args : Dict String
  pub target : String

pub record PortMapping : Type 0 where
  pub host_ip : String
  pub host_port : String
  pub container_port : String
  pub protocol : String

pub record ServiceDependency : Type 0 where
  pub condition : String

pub record VolumeMount : Type 0 where
  pub source : String
  pub target : String
  pub type : String
  pub read_only : Bool

-- A Go `map` or slice that is nil is the empty one here: the code reads both alike.
pub record Service : Type 0 where
  pub name : String
  pub image : String
  pub build : Option BuildConfig
  pub ports : List PortMapping
  pub environment : Dict String
  pub labels : Dict String
  pub depends_on : Dict ServiceDependency
  pub profiles : List String
  pub volumes : List VolumeMount
  pub networks : List String
  pub restart : String
  pub command : List String
  pub entrypoint : List String
  pub container_id : String
  pub state : String
  pub health : String

pub record Network : Type 0 where
  pub name : String
  pub driver : String
  pub external : Bool
  pub labels : Dict String

pub record Volume : Type 0 where
  pub name : String
  pub driver : String
  pub external : Bool
  pub labels : Dict String

pub record Project : Type 0 where
  pub id : String
  pub name : String
  pub path : String
  pub compose_files : List String
  pub env_files : List String
  pub services : List Service
  pub networks : Dict Network
  pub volumes : Dict Volume
  pub profiles : List String
  pub status : ProjectStatus
