-- ===== src/Discovery/Parser.antt =====
-- Parse, parseFile, resolveIncludes, parseIncludeEntries, resolveExtends and loadServiceEnvFiles of
-- internal/discovery/parser.go. The file system, the YAML decoder and the functions on paths are
-- outside the repository and stand in one record. `depth > 10` is asked at depths from 0, so eleven
-- levels are left at first, and a level fewer in each nested call.
pub mod Parse
pub mod Includes
pub mod Extends
use compose_cockpit.Base.{
  ℕ, zero, suc, String, Bool, true, false, Option, none, some, List, [], ◌∷◌, ◌++◌, map, same,
  if◌then◌else◌, contains,
}
use compose_cockpit.Base.Dict.{Dict, lookup, insert, insert_all}
use compose_cockpit.Base.Results.{Result, ok, err, ◌>>=◌}
use compose_cockpit.Discovery.Value.{
  Value, null, text, list, mapping, strings, Values, no_values, item, field, as_text, text_or,
}
use compose_cockpit.Discovery.Readers.{merge_env_interface, parse_bool_or_struct}
use compose_cockpit.Discovery.EnvFile.{parse_env_file, load_env_files, get_os_env}
use compose_cockpit.Discovery.Expand.{expand_env_vars}
use compose_cockpit.Discovery.Scanner.{DiscoveredProject}
use compose_cockpit.Discovery.Compose.{
  ExtendsConfig, ComposeService, ComposeNetwork, ComposeVolume, ComposeFile, merge_service,
  merge_into, convert_service,
}
use compose_cockpit.Domain.Project.{Project, Service, Network, Volume, unknown}

pub record Surroundings : Type 0 where
  -- The text of a file that can be read.
  pub read : String → Option String
  -- yaml.Unmarshal into a composeFile; a map that is nil is empty here.
  pub unmarshal : String → Option ComposeFile
  -- filepath.Join, filepath.Dir and filepath.Base
  pub join : String → String → String
  pub dir : String → String
  pub base : String → String
  -- os.Environ
  pub environ : List String
  -- GenerateProjectID
  pub project_id : String → String

-- The errors, with what they wrap.
pub data ParseError : Type 0 where
  unreadable : ParseError
  yaml_unmarshal : ParseError
  extends_limit : ParseError
  parse_extends_file : String → ParseError → ParseError
  service_not_found : String → String → ParseError
  parse : String → ParseError → ParseError
  resolve_includes_in : String → ParseError → ParseError
  resolve_extends_for : String → ParseError → ParseError

pub record IncludeRef : Type 0 where
  pub path : String
  pub env_file : String

-- The limit of both recursions: depths 0 to 10.
abbrev pub levels : ℕ
levels = 11

-- `if v == nil { return x }; return y`
unfoldable pub unless_null {ℓ} : {A : Type ℓ} → Value → A → A → A
unless_null null x y = x
unless_null _ x y = y

-- `svc.Extends = nil`
abbrev pub without_extends : ComposeService → ComposeService
without_extends svc = record {
  image = svc.image;
  build = svc.build;
  ports = svc.ports;
  environment = svc.environment;
  labels = svc.labels;
  depends_on = svc.depends_on;
  profiles = svc.profiles;
  volumes = svc.volumes;
  networks = svc.networks;
  restart = svc.restart;
  command = svc.command;
  entrypoint = svc.entrypoint;
  extends = none;
  env_file = svc.env_file;
}

abbrev pub over_parent : ComposeService → ComposeService → Result ParseError ComposeService
over_parent svc parent = ok (without_extends (merge_service parent svc))

module _ (around : Surroundings) where
  unfoldable pub parse_file : String → Dict String → Result ParseError ComposeFile
  parse_file path env = elim (around.read path) [
    | none ↦ err unreadable
    | some data_read ↦ elim (around.unmarshal (expand_env_vars env data_read)) [
      | none ↦ err yaml_unmarshal
      | some cf ↦ ok cf
    ]
  ]

  -- A path below the directory, or nothing.
  below : String → Value → String
  below base_dir v = elim (as_text v) [ none ↦ "" | some path ↦ around.join base_dir path ]

  abbrev kept_ref : IncludeRef → List IncludeRef → List IncludeRef
  kept_ref ref refs = if same ref.path "" then refs else ref ∷ refs

  include_items : String → Values → List IncludeRef
  unfolding below
  include_items base_dir no_values = []
  include_items base_dir (item (text path) vs) =
      record { path = around.join base_dir path; env_file = "" } ∷ include_items base_dir vs
  include_items base_dir (item (mapping es) vs) =
      kept_ref
        (record {
          path = below base_dir (field "path" es);
          env_file = below base_dir (field "env_file" es);
        })
        (include_items base_dir vs)
  include_items base_dir (item _ vs) = include_items base_dir vs

  -- parseIncludeEntries
  unfoldable pub parse_include_entries : String → Value → List IncludeRef
  unfolding include_items
  parse_include_entries base_dir (list vs) = include_items base_dir vs
  parse_include_entries base_dir (text path) =
      record { path = around.join base_dir path; env_file = "" } ∷ []
  parse_include_entries base_dir _ = []

  -- incEnv
  unfoldable pub include_env : IncludeRef → Dict String → Dict String
  include_env ref env =
      if same ref.env_file "" then env else parse_env_file around.read ref.env_file env

  -- The loop over the includes; the nested call is an argument. A file that does not parse is passed
  -- over.
  unfoldable pub include_all :
      (String → ComposeFile → Dict String → Result ParseError ComposeFile)
      → List IncludeRef
      → Dict String
      → ComposeFile
      → Result ParseError ComposeFile
  unfolding parse_file include_env
  include_all nested [] env cf = ok cf
  include_all nested (ref ∷ refs) env cf = elim (parse_file ref.path (include_env ref env)) [
    | err e ↦ include_all nested refs env cf
    | ok inc ↦ nested (around.dir ref.path) inc (include_env ref env) >>= λ full.
        include_all nested refs env (merge_into cf full)
  ]

  -- `cf.Include = nil`
  abbrev without_include : ComposeFile → Result ParseError ComposeFile
  without_include cf = ok (record {
    services = cf.services;
    networks = cf.networks;
    volumes = cf.volumes;
    include = null;
  })

  -- resolveIncludes, by the number of levels that are left.
  unfoldable pub resolve_includes :
      ℕ → String → ComposeFile → Dict String → Result ParseError ComposeFile
  unfolding include_all unless_null
  resolve_includes zero base_dir cf env = ok cf
  resolve_includes (suc n) base_dir cf env = unless_null cf.include (ok cf) (
      include_all (resolve_includes n) (parse_include_entries base_dir cf.include) env cf
      >>= without_include)

  -- A service that `extends` names, and the path of its file.
  unfoldable pub extended_service :
      String → ExtendsConfig → Dict String → Result ParseError ComposeService
  unfolding parse_file
  extended_service base_dir ext env = elim (parse_file (around.join base_dir ext.file) env) [
    | err e ↦ err (parse_extends_file (around.join base_dir ext.file) e)
    | ok cf ↦ elim (lookup ext.service cf.services) [
      | none ↦ err (service_not_found ext.service (around.join base_dir ext.file))
      | some svc ↦ ok svc
    ]
  ]

  -- The parent is resolved first, if there is one; the nested call is an argument.
  with_parent :
      (ExtendsConfig → Result ParseError ComposeService)
      → Option ExtendsConfig
      → ComposeService
      → Result ParseError ComposeService
  with_parent nested none svc = ok svc
  with_parent nested (some ext) svc = nested ext >>= over_parent svc

  -- resolveExtends, by the number of levels that are left.
  unfoldable pub resolve_extends :
      ℕ → String → ExtendsConfig → Dict String → Result ParseError ComposeService
  unfolding extended_service with_parent
  resolve_extends zero base_dir ext env = err extends_limit
  resolve_extends (suc n) base_dir ext env = extended_service base_dir ext env >>= λ svc.
      with_parent
        (λ parent. resolve_extends n (around.dir (around.join base_dir ext.file)) parent env)
        svc.extends svc
