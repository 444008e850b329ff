-- ===== src/Docker/Resolve/Names.antt =====
-- resolveNetworks and resolveVolumeMounts of internal/docker/operations.go against the names under which
-- Up creates networks and volumes.
use package.text.Mathlib.Text.{starts_with}
use compose_cockpit.Base.{
  String, false, some, List, [], ◌∷◌, ◌≡◌, ◌≢◌, refl, ap, subst, ◌∙◌, map, same, same-false, In,
  inl, inr, Bool-cases,
}
use compose_cockpit.Base.Dict.{lookup}
use compose_cockpit.Docker.Resolve.{
  network_name, volume_name, mount_source, resolve_mount, resolve_network, resolve_networks,
}
use compose_cockpit.Domain.Project.{Project, Network, Volume, VolumeMount}

resolve_network-network_name :
    (p : Project) (n : String) (def : Network)
    → def.external ≡ false
    → resolve_network p n (some def) ≡ network_name p n def
unfolding resolve_network network_name
resolve_network-network_name p n def e = elim (Bool-cases (same def.name "")) [
  | inl s ↦ rw (s, e, resolve_network, network_name) refl
  | inr s ↦ rw (s, resolve_network, network_name) refl
]

In-map : (f : String → String) (n : String) (ns : List String) → In n ns → In (f n) (map f ns)
In-map f n [] i = i
In-map f n (m ∷ ns) (inl e) = inl (ap f e)
In-map f n (m ∷ ns) (inr i) = inr (In-map f n ns i)

-- A container of a service joins each network that the project declares and that is not external under
-- the name under which Up creates it.
resolve_networks-network_name :
    (p : Project) (names : List String) (n : String) (def : Network)
    → In n names
    → lookup n p.networks ≡ some def
    → def.external ≡ false
    → In (network_name p n def) (resolve_networks p names)
unfolding resolve_networks
resolve_networks-network_name p [] n def i declared own = absurd i
resolve_networks-network_name p (m ∷ ms) n def i declared own =
    let name : String → String = λ k. resolve_network p k (lookup k p.networks) in
    let e = ap (resolve_network p n) declared ∙ resolve_network-network_name p n def own in
    subst (λ z. In z (map name (m ∷ ms))) e (In-map name n (m ∷ ms) i)

-- A mount of a volume that the project declares names the volume as Up creates it.
resolve_mount-volume_name :
    (p : Project) (m : VolumeMount) (def : Volume)
    → m.type ≡ "volume"
    → m.source ≢ ""
    → starts_with m.source "/" ≡ false
    → lookup m.source p.volumes ≡ some def
    → (resolve_mount p m).source ≡ volume_name p m.source def
unfolding resolve_mount mount_source volume_name
resolve_mount-volume_name p m def kind named relative declared =
    rw (kind, same-false m.source "" named, relative, declared, mount_source, volume_name) refl
