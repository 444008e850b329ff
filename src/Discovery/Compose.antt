-- ===== src/Discovery/Compose.antt =====
-- The types of a compose file in internal/discovery/parser.go, mergeService, mergeInto and
-- convertService. A slice that is nil differs from an empty one where the code asks for nil, so such a
-- slice is an Option.
pub mod Merge
pub mod Services
use compose_cockpit.Base.{
  String, Bool, true, false, Option, none, some, List, [], ◌∷◌, same, if◌then◌else◌,
}
use compose_cockpit.Base.Dict.{Dict, lookup, insert, insert_all}
use compose_cockpit.Discovery.Value.{Value, null, Values, no_values, item}
use compose_cockpit.Discovery.Readers.{
  or_empty, parse_env_interface, merge_env_interface, parse_build_config, parse_depends_on,
  parse_networks_list, parse_string_or_slice,
}
use compose_cockpit.Discovery.Ports.{parse_ports, parse_volume_mounts}
use compose_cockpit.Domain.Project.{BuildConfig, Service}

pub record ExtendsConfig : Type 0 where
  pub file : String
  pub service : String

pub record ComposeService : Type 0 where
  pub image : String
  pub build : Value
  pub ports : Option Values
  pub environment : Value
  pub labels : Value
  pub depends_on : Value
  pub profiles : Option (List String)
  pub volumes : Option Values
  pub networks : Value
  pub restart : String
  pub command : Value
  pub entrypoint : Value
  pub extends : Option ExtendsConfig
  pub env_file : Value

pub record ComposeNetwork : Type 0 where
  pub name : String
  pub driver : String
  pub external : Value
  pub labels : Dict String
  pub ipam : Value

pub record ComposeVolume : Type 0 where
  pub name : String
  pub driver : String
  pub external : Value
  pub labels : Dict String

pub record ComposeFile : Type 0 where
  pub services : Dict ComposeService
  pub networks : Dict ComposeNetwork
  pub volumes : Dict ComposeVolume
  pub include : Value

-- `if over != nil { base = over }`
unfoldable pub over_value : Value → Value → Value
over_value base null = base
over_value base over = over

abbrev pub over_slice : {A : Type 0} → Option A → Option A → Option A
over_slice base none = base
over_slice base (some over) = some over

-- `if over != "" { base = over }`
abbrev pub over_text : String → String → String
over_text base over = if same over "" then base else over

-- `if over != nil { base = mergeEnvInterface(base, over) }`
unfoldable pub over_env : Value → Value → Value
over_env base null = base
over_env base over = merge_env_interface base over

-- `append(vs, ws...)`
unfoldable pub append : Values → Values → Values
append no_values ws = ws
append (item v vs) ws = item v (append vs ws)

-- `if over != nil { base = append(base, over...) }`: nothing appended to nil is nil.
unfoldable pub over_ports : Option Values → Option Values → Option Values
unfolding append
over_ports base none = base
over_ports none (some no_values) = none
over_ports none (some (item v vs)) = some (item v vs)
over_ports (some vs) (some ws) = some (append vs ws)

-- mergeService
unfoldable pub merge_service : ComposeService → ComposeService → ComposeService
unfolding over_value over_env over_ports
merge_service base over = record {
  image = over_text base.image over.image;
  build = over_value base.build over.build;
  ports = over_ports base.ports over.ports;
  environment = over_env base.environment over.environment;
  labels = over_env base.labels over.labels;
  depends_on = over_value base.depends_on over.depends_on;
  profiles = over_slice base.profiles over.profiles;
  volumes = over_slice base.volumes over.volumes;
  networks = over_value base.networks over.networks;
  restart = over_text base.restart over.restart;
  command = over_value base.command over.command;
  entrypoint = over_value base.entrypoint over.entrypoint;
  extends = base.extends;
  env_file = over_value base.env_file over.env_file;
}

-- The body of the loop over the services of the overriding file.
abbrev pub merged_into : Option ComposeService → ComposeService → ComposeService
merged_into none svc = svc
merged_into (some existing) svc = merge_service existing svc

unfoldable pub merge_services : Dict ComposeService → Dict ComposeService → Dict ComposeService
merge_services [] base = base
merge_services ((name, svc) ∷ over) base =
    merge_services over (insert name (merged_into (lookup name base) svc) base)

-- mergeInto
unfoldable pub merge_into : ComposeFile → ComposeFile → ComposeFile
unfolding merge_services
merge_into base over = record {
  services = merge_services over.services base.services;
  networks = insert_all over.networks base.networks;
  volumes = insert_all over.volumes base.volumes;
  include = base.include;
}

abbrev or_none : Option Values → Values
or_none none = no_values
or_none (some vs) = vs

abbrev or_nothing : Option (List String) → List String
or_nothing none = []
or_nothing (some xs) = xs

-- convertService: StateCreated and HealthNone until the daemon tells more.
unfoldable pub convert_service : String → ComposeService → Service
convert_service name svc = record {
  name = name;
  image = svc.image;
  build = parse_build_config svc.build;
  ports = parse_ports (or_none svc.ports);
  environment = or_empty (parse_env_interface svc.environment);
  labels = or_empty (parse_env_interface svc.labels);
  depends_on = parse_depends_on svc.depends_on;
  profiles = or_nothing svc.profiles;
  volumes = parse_volume_mounts (or_none svc.volumes);
  networks = parse_networks_list svc.networks;
  restart = svc.restart;
  command = parse_string_or_slice svc.command;
  entrypoint = parse_string_or_slice svc.entrypoint;
  container_id = "";
  state = "created";
  health = "none";
}
