-- ===== src/Tests/Shop.antt =====
-- A small project, and daemons that answer for the calls on it.
use compose_cockpit.Base.{String, true, false, none, some, [], ◌∷◌, same, if◌then◌else◌}
use compose_cockpit.Base.Results.{ok}
use compose_cockpit.Domain.Project.{Project, Service, unknown}
use compose_cockpit.Docker.Client.{ContainerInfo, Daemon}

abbrev pub service_named : String → Service
service_named name = record {
  name = name;
  image = "nginx:1";
  build = none;
  ports = [];
  environment = [];
  labels = [];
  depends_on = [];
  profiles = [];
  volumes = [];
  networks = [];
  restart = "";
  command = [];
  entrypoint = [];
  container_id = "";
  state = "";
  health = "";
}

-- The services `web` and `db`, a network `net` and a volume `data`.
abbrev pub shop : Project
shop = record {
  id = "p1";
  name = "shop";
  path = "/srv/shop";
  compose_files = "/srv/shop/compose.yaml" ∷ [];
  env_files = [];
  services =
      record (service_named "db") {
        ports =
            record { host_ip = ""; host_port = "5432"; container_port = "5432"; protocol = "tcp" }
            ∷ [];
      }
      ∷ service_named "web"
      ∷ [];
  networks = ("net", record { name = ""; driver = ""; external = false; labels = [] }) ∷ [];
  volumes = ("data", record { name = ""; driver = ""; external = false; labels = [] }) ∷ [];
  profiles = [];
  status = unknown;
}

abbrev pub container_of : String → String → ContainerInfo
container_of service state = record {
  id = service;
  name = service;
  state = state;
  labels = ("com.composecockpit.project", "p1") ∷ ("com.composecockpit.service", service) ∷ [];
  ports = [];
}

-- The daemon has one running and one stopped container; a container gets its name as its identifier.
abbrev pub calm : Daemon
calm = record {
  on_container_create = λ h c. ok c.name;
  on_container_start = λ h id. none;
  on_container_stop = λ h id. none;
  on_container_remove = λ h id. none;
  on_container_list = λ h f. ok (container_of "db" "running" ∷ container_of "web" "exited" ∷ []);
  on_network_create = λ h n driver labels. ok n;
  on_network_remove = λ h id. none;
  on_network_list = λ h. ok [];
  on_volume_create = λ h n driver labels. none;
  on_volume_remove = λ h n. none;
  on_volume_list = λ h. ok [];
  on_image_pull = λ h i. none;
  on_image_build = λ h o. none;
  on_image_exists = λ h i. ok true;
  on_ctx_err = λ h. false;
  on_listen = λ h a port. true;
  join_path = λ a b. b;
  range_keys = λ keys. keys;
}

-- The volume is there already, and the second service does not start.
abbrev pub faulty : Daemon
faulty = record calm {
  on_volume_create = λ h n driver labels. some "volume already exists";
  on_container_start = λ h id. if same id "shop-web-1" then some "boom" else none;
}

-- The context is cancelled.
abbrev pub hurried : Daemon
hurried = record calm { on_ctx_err = λ h. true }

-- Every port is in use, and `db` wants one.
abbrev pub guarded : Daemon
guarded = record calm { on_listen = λ h a port. false }
