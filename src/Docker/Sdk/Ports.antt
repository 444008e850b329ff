-- ===== src/Docker/Sdk/Ports.antt =====
-- Which bindings buildPortBindings of internal/docker/sdk_client.go keeps.
use compose_cockpit.Base.{
  String, Option, none, some, List, [], ◌∷◌, ◌≡◌, refl, subst, ◌↔◌, ◌∙◌, same, if◌then◌else◌,
  Bool-cases, inl, inr,
}
use compose_cockpit.Base.Dict.{lookup, lookup-insert, or_else}
use compose_cockpit.Docker.Client.{PortBinding}
use compose_cockpit.Docker.Sdk.{HostBinding, PortMaps, bind_ports, build_port_bindings}

or_else-some :
    {A : Type 0} (o w : Option A) (a : A) → or_else o (some a) ≡ or_else (or_else o (some a)) w
or_else-some none w a = refl
or_else-some (some b) w a = refl

or_else-none : {A : Type 0} (o w : Option A) → or_else o w ≡ or_else (or_else o none) w
or_else-none none w = refl
or_else-none (some b) w = refl

or_else-end : {A : Type 0} (o : Option A) → or_else o none ≡ o
or_else-end none = refl
or_else-end (some b) = refl

module _ (new_port : String → String → String) where
  abbrev host_side : PortBinding → List HostBinding
  host_side p = record { host_ip = p.host_ip; host_port = p.host_port } ∷ []

  -- The host side of the last binding of a port of the container.
  abbrev pub last_binding : String → List PortBinding → Option (List HostBinding)
  last_binding port [] = none
  last_binding port (p ∷ ports) =
      or_else (last_binding port ports)
        (if same (new_port p.protocol p.container_port) port then some (host_side p) else none)

  bind_ports-last :
      (port : String) (ports : List PortBinding) (m : PortMaps)
      → lookup port (bind_ports new_port ports m).bindings
        ≡ or_else (last_binding port ports) (lookup port m.bindings)
  unfolding bind_ports
  bind_ports-last port [] m = refl
  bind_ports-last port (p ∷ ports) m =
      let k = new_port p.protocol p.container_port in
      bind_ports-last port ports _ ∙ elim (Bool-cases (same k port)) [
        | inl e ↦
            rw (lookup-insert k port (host_side p) m.bindings, e)
              (or_else-some (last_binding port ports) (lookup port m.bindings) (host_side p))
        | inr e ↦
            rw (lookup-insert k port (host_side p) m.bindings, e)
              (or_else-none (last_binding port ports) (lookup port m.bindings))
      ]

  bind_ports-exposed :
      (port : String) (ports : List PortBinding) (m : PortMaps)
      → (lookup port m.exposed ≡ none) ↔ (lookup port m.bindings ≡ none)
      → (lookup port (bind_ports new_port ports m).exposed ≡ none)
        ↔ (lookup port (bind_ports new_port ports m).bindings ≡ none)
  unfolding bind_ports
  bind_ports-exposed port [] m h = h
  bind_ports-exposed port (p ∷ ports) m h =
      let k = new_port p.protocol p.container_port in
      bind_ports-exposed port ports _ (
        rw (lookup-insert k port tt m.exposed, lookup-insert k port (host_side p) m.bindings)
          (elim (Bool-cases (same k port)) [
            | inl e ↦ rw e ((λ x. absurd (cc)), (λ x. absurd (cc)))
            | inr e ↦ rw e h
          ]))

  -- A port of the container is bound to the host side of the last binding that names it and to no
  -- other, and it is exposed exactly if a binding names it.
  pub build_port_bindings-last :
      (port : String) (ports : List PortBinding)
      → (lookup port (build_port_bindings new_port ports).bindings ≡ last_binding port ports)
        × ((lookup port (build_port_bindings new_port ports).exposed ≡ none)
            ↔ (last_binding port ports ≡ none))
  unfolding build_port_bindings
  build_port_bindings-last port ports =
      let start : PortMaps = record { exposed = []; bindings = [] } in
      let bound = bind_ports-last port ports start ∙ or_else-end _ in
      (
        bound,
        subst (λ b. (lookup port (bind_ports new_port ports start).exposed ≡ none) ↔ (b ≡ none))
            bound (bind_ports-exposed port ports start ((λ x. refl), (λ x. refl))),
      )
