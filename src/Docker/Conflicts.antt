-- ===== src/Docker/Conflicts.antt =====
-- internal/docker/operations.go, "Conflict detection": checks before Up creates anything.
pub mod Ledgers
use Prim.Native.Char.{Char, code}
use Prim.Native.String
use compose_cockpit.Base.{
  ℕ, ◌+◌, ◌*◌, ◌-◌, ◌%◌, ◌^◌, ◌==◌, ◌&&◌, leb, ltb, String, Bool, true, false, Option, none, some,
  List, [], ◌∷◌, ◌++◌, map, same, if◌then◌else◌, contains,
}
use compose_cockpit.Base.Dict.{Dict, lookup}
use compose_cockpit.Base.Results.{Result, ok, err}
use compose_cockpit.Base.Text.{cat}
use compose_cockpit.Domain.Errors.{
  AppError, Message, port_in_use, port_occupied, unmanaged_network, foreign_volume, port_conflict,
  port_details,
}
use compose_cockpit.Domain.Project.{Service, PortMapping}
use compose_cockpit.Docker.Client.{ContainerInfo, PortBinding, NetworkInfo, VolumeInfo, Daemon}
use compose_cockpit.Docker.History.{
  M, return, ◌>>=◌, container_list, network_list, volume_list, listen,
}
use compose_cockpit.Docker.Resolve.{label, project_label}

-- The keys of `wantedPorts` that one service adds; the map is read by its keys alone.
pub wanted_of : List PortMapping → List String
wanted_of [] = []
wanted_of (p ∷ ps) =
    let rest = wanted_of ps in
    if same p.host_port "" then rest else cat p.protocol (cat ":" p.host_port) ∷ rest

pub wanted_ports : List Service → List String
unfolding wanted_of
wanted_ports [] = []
wanted_ports (s ∷ ss) = wanted_of s.ports ++ wanted_ports ss

is_digit : Char → Bool
is_digit c = leb 48 (code c) && leb (code c) 57

-- A decimal number, if there is nothing but digits; `n` is what has been read.
digits_from : String → ℕ → Option ℕ
unfolding is_digit
digits_from String.[] n = some n
digits_from (String.◌∷◌ c s) n =
    let rest = digits_from s (n * 10 + (code c - 48)) in if is_digit c then rest else none

unsigned : String → Option ℕ
unfolding digits_from
unsigned s = if same s "" then none else digits_from s 0

-- A number at the bounds of an int64, as its 64 bits; 0 for a text that is no number.
bounded_int : Bool → Option ℕ → ℕ
bounded_int negative none = 0
bounded_int false (some n) = if ltb n (2 ^ 63) then n else 2 ^ 63 - 1
bounded_int true (some n) = if ltb n (2 ^ 63) then (2 ^ 64 - n) % 2 ^ 64 else 2 ^ 63

-- `n, _ := strconv.Atoi(s)`
unfoldable pub port_number : String → ℕ
unfolding unsigned bounded_int
port_number String.[] = 0
port_number (String.◌∷◌ c s) =
    if code c == 45
    then bounded_int true (unsigned s)
    else if code c == 43
    then bounded_int false (unsigned s)
    else bounded_int false (unsigned (String.◌∷◌ c s))

in_use : ContainerInfo → PortBinding → AppError
unfolding port_number
in_use c p = record {
  code = port_conflict;
  message = port_in_use p.host_port p.protocol c.name;
  http_status = 409;
  details = port_details (record {
    port = port_number p.host_port;
    protocol = p.protocol;
    blocking_container = c.name;
  });
}

occupied : PortMapping → AppError
unfolding port_number
occupied p = record {
  code = port_conflict;
  message = port_occupied p.host_port p.protocol;
  http_status = 409;
  details =
      port_details
        (record { port = port_number p.host_port; protocol = p.protocol; blocking_container = "" });
}

-- The address on which the host port is tried.
pub bind_address : PortMapping → String
bind_address p = if same p.host_ip "" then "0.0.0.0" else p.host_ip

-- The first port of a container whose key is wanted.
blocking_port : List String → ContainerInfo → List PortBinding → Option AppError
unfolding in_use
blocking_port wanted c [] = none
blocking_port wanted c (p ∷ ps) =
    let rest = blocking_port wanted c ps in
    if contains (cat p.protocol (cat ":" p.host_port)) wanted then some (in_use c p) else rest

pub blocking_container : List String → List ContainerInfo → Option AppError
unfolding blocking_port
blocking_container wanted [] = none
blocking_container wanted (c ∷ cs) = elim (blocking_port wanted c c.ports) [
  | some e ↦ some e
  | none ↦ blocking_container wanted cs
]

module _ (d : Daemon) where
  -- The host check of one service's ports.
  check_host_ports : List PortMapping → M (Option AppError)
  unfolding occupied
  check_host_ports [] = return none
  check_host_ports (p ∷ ps) = elim (same p.host_port "") [
    | true ↦ check_host_ports ps
    | false ↦ do
      free ← listen d (bind_address p) p.host_port
      elim free [ true ↦ check_host_ports ps | false ↦ return (some (occupied p)) ]
  ]

  check_host : List Service → M (Option AppError)
  unfolding check_host_ports
  check_host [] = return none
  check_host (s ∷ ss) = do
    e ← check_host_ports s.ports
    elim e [ some x ↦ return (some x) | none ↦ check_host ss ]

  check_listed : List Service → Result String (List ContainerInfo) → M (Option AppError)
  unfolding blocking_container check_host wanted_ports
  check_listed ss (err e) = return none
  check_listed ss (ok cs) = elim (blocking_container (wanted_ports ss) cs) [
    | some e ↦ return (some e)
    | none ↦ check_host ss
  ]

  -- checkPortConflicts; a nil error is `none`.
  unfoldable pub check_port_conflicts : List Service → M (Option AppError)
  unfolding check_listed wanted_ports
  check_port_conflicts ss = elim (wanted_ports ss) [
    | [] ↦ return none
    | w ∷ ws ↦ do r ← container_list d (("status", "running" ∷ []) ∷ []); check_listed ss r
  ]

  -- The loop of checkNetworkConflict: the first network of that name decides.
  pub foreign_network : String → List NetworkInfo → Option Message
  foreign_network name [] = none
  foreign_network name (n ∷ ns) =
      let rest = foreign_network name ns in
      if same n.name name
      then (if same (label project_label n.labels) "" then some (unmanaged_network name) else none)
      else rest

  unfoldable pub check_network_conflict : String → M (Option Message)
  unfolding foreign_network
  check_network_conflict name = do
    r ← network_list d
    elim r [ err e ↦ return none | ok ns ↦ return (foreign_network name ns) ]

  -- The loop of checkVolumeConflict.
  pub foreign_owner : String → String → List VolumeInfo → Option Message
  foreign_owner name project_id [] = none
  foreign_owner name project_id (v ∷ vs) =
      let rest = foreign_owner name project_id vs in
      let owner = label project_label v.labels in
      if same v.name name
      then (if same owner project_id
          then none
          else if same owner ""
          then none
          else some (foreign_volume name))
      else rest

  unfoldable pub check_volume_conflict : String → String → M (Option Message)
  unfolding foreign_owner
  check_volume_conflict name project_id = do
    r ← volume_list d
    elim r [ err e ↦ return none | ok vs ↦ return (foreign_owner name project_id vs) ]
