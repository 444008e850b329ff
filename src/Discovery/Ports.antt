-- ===== src/Discovery/Ports.antt =====
-- parsePorts, parsePortString, parseVolumeMounts and parseVolumeString of
-- internal/discovery/parser.go.
pub mod RoundTrip
use package.text.Mathlib.Text.{starts_with}
use compose_cockpit.Base.{
  ℕ, String, Bool, true, false, ◌||◌, Option, none, some, List, [], ◌∷◌, if◌then◌else◌,
}
use compose_cockpit.Base.Text.{cat, split, split_n, last_cut}
use compose_cockpit.Docker.History.{contains_text}
use compose_cockpit.Discovery.Value.{
  Value, text, int, mapping, bool, Values, no_values, item, Entries, field, has_field, sprint,
  text_or, as_text,
}
use compose_cockpit.Domain.Project.{PortMapping, VolumeMount}

-- The switch on the number of parts.
port_of_parts : String → List String → Option PortMapping
port_of_parts protocol (c ∷ []) =
    some (record { host_ip = ""; host_port = c; container_port = c; protocol = protocol })
port_of_parts protocol (h ∷ c ∷ []) =
    some (record { host_ip = ""; host_port = h; container_port = c; protocol = protocol })
port_of_parts protocol (ip ∷ h ∷ c ∷ []) =
    some (record { host_ip = ip; host_port = h; container_port = c; protocol = protocol })
port_of_parts protocol _ = none

-- parsePortString; `none` is a nil mapping.
unfoldable pub parse_port_string : String → Option PortMapping
unfolding port_of_parts
parse_port_string s = elim (last_cut "/" s) [
  | none ↦ port_of_parts "tcp" (split ":" s)
  | some (ports, protocol) ↦ port_of_parts protocol (split ":" ports)
]

-- A field that is printed if it is there.
printed_field : String → Entries → String
printed_field k es = if has_field k es then sprint (field k es) else ""

-- The body of the loop of parsePorts: a value of any other type is passed over.
port_of : Value → Option PortMapping
unfolding printed_field
port_of (text s) = parse_port_string s
port_of (int t) =
    some (record { host_ip = ""; host_port = t; container_port = t; protocol = "tcp" })
port_of (mapping es) = some (record {
  host_ip = text_or "" (field "host_ip" es);
  host_port = printed_field "published" es;
  container_port = printed_field "target" es;
  protocol = text_or "tcp" (field "protocol" es);
})
port_of _ = none

abbrev pub cons_some : {A : Type 0} → Option A → List A → List A
cons_some none xs = xs
cons_some (some x) xs = x ∷ xs

unfoldable pub parse_ports : Values → List PortMapping
unfolding port_of
parse_ports no_values = []
parse_ports (item v vs) = cons_some (port_of v) (parse_ports vs)

-- The type of a mount by its source.
unfoldable pub mount_type : String → String
mount_type source =
    if starts_with source "/" || starts_with source "./" || starts_with source "~"
    then "bind"
    else "volume"

mount_from : String → String → Bool → VolumeMount
unfolding mount_type
mount_from source target read_only = record {
  source = source;
  target = target;
  type = mount_type source;
  read_only = read_only;
}

-- The switch on the number of parts.
mount_of_parts : List String → VolumeMount
unfolding mount_from
mount_of_parts (t ∷ []) = mount_from "" t false
mount_of_parts (s ∷ t ∷ []) = mount_from s t false
mount_of_parts (s ∷ t ∷ m ∷ []) = mount_from s t (contains_text m "ro")
mount_of_parts _ = mount_from "" "" false

unfoldable pub parse_volume_string : String → VolumeMount
unfolding mount_of_parts
parse_volume_string s = mount_of_parts (split_n ":" 3 s)

-- `val["read_only"].(bool)`
flag : Value → Bool
flag (bool b) = b
flag _ = false

mount_of : Value → Option VolumeMount
unfolding flag
mount_of (text s) = some (parse_volume_string s)
mount_of (mapping es) = some (record {
  source = text_or "" (field "source" es);
  target = text_or "" (field "target" es);
  type = text_or "volume" (field "type" es);
  read_only = flag (field "read_only" es);
})
mount_of _ = none

unfoldable pub parse_volume_mounts : Values → List VolumeMount
unfolding mount_of
parse_volume_mounts no_values = []
parse_volume_mounts (item v vs) = cons_some (mount_of v) (parse_volume_mounts vs)
