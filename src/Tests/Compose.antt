-- ===== src/Tests/Compose.antt =====
-- Compose files, env files and references to variables.
use compose_cockpit.Base.{String, none, some, [], ◌∷◌, ◌≡◌, refl, ◌↔◌, same, if◌then◌else◌, Option}
use compose_cockpit.Base.Dict.{Dict}
use compose_cockpit.Base.Results.{ok, err}
use compose_cockpit.Base.Text.{cat, cut, has}
use compose_cockpit.Discovery.Expand.Laws.Defaults.{expand_env_vars-set_or}
use compose_cockpit.Domain.Project.{PortMapping}
use compose_cockpit.Discovery.Value.{null, text, item, no_values, list}
use compose_cockpit.Discovery.Expand.{expand_env_vars, expand_from, count, value_of, reference}
use compose_cockpit.Discovery.Compose.{ExtendsConfig, ComposeService, ComposeFile}
use compose_cockpit.Discovery.Scanner.{DiscoveredProject}
use compose_cockpit.Discovery.Parser.{
  Surroundings, levels, extends_limit, extended_service, resolve_extends,
}
use compose_cockpit.Discovery.Parser.Extends.{Chain, resolve_extends-Chain, resolve_extends-limit}

abbrev web_port : PortMapping
web_port = record {
  host_ip = "127.0.0.1";
  host_port = "8080";
  container_port = "80";
  protocol = "tcp";
}

abbrev variables : Dict String
variables = ("HOST", "db") ∷ ("TAG", "1.2") ∷ []

-- TAG is set to "1.2".
expand_env_vars-set_or_example :
    (expand_env_vars variables (cat "image: app:" (cat "${TAG:-latest}" "-slim"))
      ≡ cat "image: app:" (cat "1.2" (expand_env_vars variables "-slim")))
    × (expand_env_vars variables (cat "image: app:" (cat "${TAG}" "-slim"))
        ≡ cat "image: app:" (cat "1.2" (expand_env_vars variables "-slim")))
unfolding has
expand_env_vars-set_or_example =
    expand_env_vars-set_or variables "image: app:" "TAG" "latest" "-slim" refl (λ e. cc) refl refl
      refl refl

-- The reference is replaced by the tag.
expanded : expand_env_vars variables "a:${TAG}-${N:-x}" ≡ "a:1.2-x"
unfolding expand_env_vars expand_from value_of reference count cut
expanded = refl

abbrev compose_service : String → Option ExtendsConfig → ComposeService
compose_service image extends = record {
  image = image;
  build = null;
  ports = some (item (text "80:80") no_values);
  environment = null;
  labels = null;
  depends_on = null;
  profiles = none;
  volumes = none;
  networks = null;
  restart = "";
  command = null;
  entrypoint = null;
  extends = extends;
  env_file = null;
}

-- A service that extends itself.
abbrev to_itself : ExtendsConfig
to_itself = record { file = "x.yml"; service = "web" }

abbrev looping : ComposeFile
looping = record {
  services = ("web", compose_service "web" (some to_itself)) ∷ [];
  networks = [];
  volumes = [];
  include = list (item (text "x.yml") no_values);
}

-- One file, `x.yml`, below a directory with one name.
abbrev one_file : Surroundings
one_file = record {
  read = λ path. if same path "x.yml" then some "" else none;
  unmarshal = λ content. some looping;
  join = λ dir path. path;
  dir = λ path. ".";
  base = λ path. path;
  environ = [];
  project_id = λ path. path;
}

abbrev Looping : String → ExtendsConfig → Type 0
Looping dir ext = ext ≡ to_itself

Looping-step :
    (dir : String) (ext : ExtendsConfig)
    → Looping dir ext
    → (svc : ComposeService) × (above : ExtendsConfig) × (extended_service one_file dir ext []
        ≡ ok svc)
      × (svc.extends ≡ some above)
      × Looping "." above
unfolding extended_service
Looping-step dir ext e = (compose_service "web" (some to_itself), to_itself, rw e refl, refl, refl)

resolve_extends-limit_example : resolve_extends one_file levels "." to_itself [] ≡ err extends_limit
resolve_extends-limit_example =
    resolve_extends-limit one_file [] Looping Looping-step levels "." to_itself refl

resolve_extends-Chain_example :
    (resolve_extends one_file levels "." to_itself [] ≡ ok (compose_service "web" none))
    ↔ Chain one_file [] levels "." to_itself (compose_service "web" none)
resolve_extends-Chain_example =
    resolve_extends-Chain one_file [] levels "." to_itself (compose_service "web" none)

abbrev two_files : DiscoveredProject
two_files = record { path = "."; compose_files = "gone.yml" ∷ "y.yml" ∷ []; env_files = [] }
