-- ===== src/Discovery/Parser/Parse.antt =====
-- Parse and loadServiceEnvFiles of internal/discovery/parser.go. A `range` over a map visits the
-- entries in the order of the association list.
pub mod Environment
pub mod Services
use compose_cockpit.Base.{
  String, Bool, true, false, Option, none, some, List, [], ◌∷◌, map, if◌then◌else◌, contains,
}
use compose_cockpit.Base.Dict.{Dict, lookup, insert}
use compose_cockpit.Base.Results.{Result, ok, err, ◌>>=◌}
use compose_cockpit.Discovery.Value.{
  Value, null, text, list, mapping, strings, Values, no_values, item, field, as_text,
}
use compose_cockpit.Discovery.Readers.{merge_env_interface, parse_bool_or_struct}
use compose_cockpit.Discovery.EnvFile.{parse_env_file, load_env_files, get_os_env}
use compose_cockpit.Discovery.Scanner.{DiscoveredProject}
use compose_cockpit.Discovery.Compose.{
  ExtendsConfig, ComposeService, ComposeNetwork, ComposeVolume, ComposeFile, merge_service,
  merge_into, convert_service,
}
use compose_cockpit.Discovery.Parser.{
  Surroundings, ParseError, parse, resolve_includes_in, resolve_extends_for, levels, parse_file,
  resolve_includes, resolve_extends, without_extends,
}
use compose_cockpit.Domain.Project.{Project, Service, Network, Volume, unknown}

-- `if _, exists := envVars[k]; !exists { envVars[k] = v }`
unfoldable pub add_missing : Dict String → Dict String → Dict String
add_missing [] env = env
add_missing ((k, v) ∷ more) env = elim (lookup k env) [
  | none ↦ add_missing more (insert k v env)
  | some w ↦ add_missing more env
]

abbrev pub empty_file : ComposeFile
empty_file = record { services = []; networks = []; volumes = []; include = null }

-- `svc.Environment = env`
abbrev pub with_environment : Value → ComposeService → ComposeService
with_environment env svc = record {
  image = svc.image;
  build = svc.build;
  ports = svc.ports;
  environment = env;
  labels = svc.labels;
  depends_on = svc.depends_on;
  profiles = svc.profiles;
  volumes = svc.volumes;
  networks = svc.networks;
  restart = svc.restart;
  command = svc.command;
  entrypoint = svc.entrypoint;
  extends = svc.extends;
  env_file = svc.env_file;
}

-- An error with the place where it happened.
abbrev pub wrapped {ℓ} :
    {A : Type ℓ} → (ParseError → ParseError) → Result ParseError A → Result ParseError A
wrapped wrap (ok a) = ok a
wrapped wrap (err e) = err (wrap e)

to_network : String × ComposeNetwork → String × Network
to_network (name, net) = (
  name,
  record {
    name = net.name;
    driver = net.driver;
    external = parse_bool_or_struct net.external;
    labels = net.labels;
  },
)

to_volume : String × ComposeVolume → String × Volume
to_volume (name, vol) = (
  name,
  record {
    name = vol.name;
    driver = vol.driver;
    external = parse_bool_or_struct vol.external;
    labels = vol.labels;
  },
)

unfoldable pub to_service : String × ComposeService → Service
to_service (name, svc) = convert_service name svc

-- profileSet, each profile once.
add_profiles : List String → List String → List String
add_profiles [] set = set
add_profiles (p ∷ ps) set =
    if contains p set then add_profiles ps set else add_profiles ps (p ∷ set)

profile_set : List Service → List String → List String
unfolding add_profiles
profile_set [] set = set
profile_set (s ∷ ss) set = profile_set ss (add_profiles s.profiles set)

module _ (around : Surroundings) where
  -- The env_file entries of a service.
  env_entries : String → Values → Dict String → Dict String
  env_entries project_dir no_values env = env
  env_entries project_dir (item (text path) vs) env =
      env_entries project_dir vs (parse_env_file around.read (around.join project_dir path) env)
  env_entries project_dir (item (mapping es) vs) env = elim (as_text (field "path" es)) [
    | none ↦ env_entries project_dir vs env
    | some path ↦
        env_entries project_dir vs (parse_env_file around.read (around.join project_dir path) env)
  ]
  env_entries project_dir (item _ vs) env = env_entries project_dir vs env

  -- `if len(env) == 0 { return nil }`
  abbrev env_value : Dict String → Value
  env_value [] = null
  env_value (e ∷ env) = strings (e ∷ env)

  unfoldable pub load_service_env_files : String → Value → Value
  unfolding env_entries
  load_service_env_files project_dir (text path) =
      env_value (parse_env_file around.read (around.join project_dir path) [])
  load_service_env_files project_dir (list vs) = env_value (env_entries project_dir vs [])
  load_service_env_files project_dir _ = null

  unfoldable pub env_vars : DiscoveredProject → Dict String
  unfolding add_missing
  env_vars disc =
      add_missing (get_os_env around.environ) (load_env_files around.read disc.env_files)

  -- One file with its includes.
  unfoldable pub full_file : String → Dict String → Result ParseError ComposeFile
  full_file path env = wrapped (parse path) (parse_file around path env) >>= λ cf.
      wrapped (resolve_includes_in path) (resolve_includes around levels (around.dir path) cf env)

  -- The loop over the compose files.
  unfoldable pub merge_files :
      List String → Dict String → ComposeFile → Result ParseError ComposeFile
  unfolding full_file
  merge_files [] env merged = ok merged
  merge_files (path ∷ paths) env merged =
      full_file path env >>= λ cf. merge_files paths env (merge_into merged cf)

  -- A service with what it extends.
  unfoldable pub extended :
      String
      → Dict String
      → String
      → Option ExtendsConfig
      → ComposeService
      → Result ParseError ComposeService
  extended path env name none svc = ok svc
  extended path env name (some ext) svc =
      wrapped (resolve_extends_for name) (resolve_extends around levels path ext env)
      >>= λ resolved. ok (without_extends (merge_service resolved svc))

  unfoldable pub extend_services :
      String → Dict String → Dict ComposeService → Result ParseError (Dict ComposeService)
  unfolding extended
  extend_services path env [] = ok []
  extend_services path env ((name, svc) ∷ services) =
      extended path env name svc.extends svc >>= λ resolved.
      extend_services path env services >>= λ rest. ok ((name, resolved) ∷ rest)

  -- A service with the variables of its files; those that it sets itself come first.
  unfoldable pub with_env_files : String → Value → ComposeService → ComposeService
  unfolding load_service_env_files
  with_env_files path null svc = svc
  with_env_files path files svc =
      with_environment (merge_env_interface (load_service_env_files path files) svc.environment) svc

  unfoldable pub env_service : String → String × ComposeService → String × ComposeService
  unfolding with_env_files
  env_service path (name, svc) = (name, with_env_files path svc.env_file svc)

  -- The project of the merged services.
  to_project : DiscoveredProject → ComposeFile → List Service → Project
  unfolding to_network to_volume profile_set
  to_project disc merged services = record {
    id = around.project_id disc.path;
    name = around.base disc.path;
    path = disc.path;
    compose_files = disc.compose_files;
    env_files = disc.env_files;
    services = services;
    networks = map to_network merged.networks;
    volumes = map to_volume merged.volumes;
    profiles = profile_set services [];
    status = unknown;
  }

  -- The services of the merged file as they stand in the project.
  unfoldable pub project_services :
      String → Dict String → Dict ComposeService → Result ParseError (List Service)
  unfolding extend_services env_service to_service
  project_services path env services = extend_services path env services >>= λ resolved.
      ok (map to_service (map (env_service path) resolved))

  -- Parse
  unfoldable pub parse_project : DiscoveredProject → Result ParseError Project
  unfolding env_vars merge_files project_services to_project
  parse_project disc =
      let env = env_vars disc in
      merge_files disc.compose_files env empty_file >>= λ merged.
      project_services disc.path env merged.services >>= λ services.
      ok (to_project disc merged services)
