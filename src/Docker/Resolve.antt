-- ===== src/Docker/Resolve.antt =====
-- internal/docker/operations.go: the names under which the daemon knows a project's networks and
-- volumes, the services that an operation is about, and the other pure helpers.
pub mod Names
use text.Mathlib.Text.{starts_with}
use compose_cockpit.Base.{
  String, Bool, true, false, not, ◌&&◌, ◌||◌, Option, none, some, List, [], ◌∷◌, map, same,
  if◌then◌else◌, contains, filter,
}
use compose_cockpit.Base.Dict.{Dict, lookup, insert, insert_all}
use compose_cockpit.Base.Text.{cat}
use compose_cockpit.Domain.Project.{Project, Service, Network, Volume, VolumeMount, PortMapping}
use compose_cockpit.Docker.Client.{PortBinding, MountConfig}

abbrev pub project_label : String
project_label = "com.composecockpit.project"

abbrev pub service_label : String
service_label = "com.composecockpit.service"

-- `labels[key]`, the empty text where the key is missing
unfoldable pub label : String → Dict String → String
label key labels = elim (lookup key labels) [ none ↦ "" | some v ↦ v ]

abbrev pub is_empty {ℓ} : {A : Type ℓ} → List A → Bool
is_empty [] = true
is_empty (x ∷ xs) = false

-- filterServices: the services that are asked for, in the project's order; all, if none is named.
unfoldable pub filter_services : Project → List String → List Service
filter_services p [] = p.services
filter_services p (n ∷ ns) = filter (λ s. contains s.name (n ∷ ns)) p.services

-- `len(services) > 0 && !containsService(services, name)` is the test by which a loop skips.
unfoldable pub selected : List String → String → Bool
selected services name = is_empty services || contains name services

-- The name under which Up creates a declared network.
unfoldable pub network_name : Project → String → Network → String
network_name p name def = if same def.name "" then cat p.name (cat "_" name) else def.name

-- The name under which Up creates a declared volume.
unfoldable pub volume_name : Project → String → Volume → String
volume_name p name def = if same def.name "" then cat p.name (cat "_" name) else def.name

-- The body of the loop of resolveVolumeMounts.
mount_source : Project → VolumeMount → Option Volume → String
mount_source p m none = m.source
mount_source p m (some vol) = if same vol.name "" then cat p.name (cat "_" m.source) else vol.name

pub resolve_mount : Project → VolumeMount → MountConfig
unfolding mount_source
resolve_mount p m = record {
  type = m.type;
  source =
      if same m.type "volume" && not (same m.source "") && not (starts_with m.source "/")
      then mount_source p m (lookup m.source p.volumes)
      else m.source;
  target = m.target;
  read_only = m.read_only;
}

pub resolve_volume_mounts : Project → List VolumeMount → List MountConfig
resolve_volume_mounts p ms = map (resolve_mount p) ms

-- The body of the loop of resolveNetworks.
pub resolve_network : Project → String → Option Network → String
resolve_network p name none = cat p.name (cat "_" name)
resolve_network p name (some def) =
    if not (same def.name "")
    then def.name
    else if def.external
    then name
    else cat p.name (cat "_" name)

pub resolve_networks : Project → List String → List String
unfolding resolve_network
resolve_networks p [] = cat p.name "_default" ∷ []
resolve_networks p (n ∷ ns) = map (λ m. resolve_network p m (lookup m p.networks)) (n ∷ ns)

-- envMapToSlice, in the order of the `range`.
pub env_map_to_slice : Dict String → List String
env_map_to_slice env = map (λ kv. cat kv.0 (cat "=" kv.1)) env

pub convert_ports : List PortMapping → List PortBinding
convert_ports ps = map convert ps
  where
    convert : PortMapping → PortBinding
    convert p = record {
      host_ip = p.host_ip;
      host_port = p.host_port;
      container_port = p.container_port;
      protocol = p.protocol;
    }

-- The labels of a service's container: the project's, the service's name, then the service's own.
pub container_labels : Project → Service → Dict String
container_labels p s = insert_all s.labels (
    insert service_label s.name
      (insert_all ((project_label, p.id) ∷ ("com.composecockpit.name", p.name) ∷ []) []))
