-- ===== src/Docker/Conflicts/Ledgers.antt =====
-- The conflict checks change nothing: what they ask the daemon leaves the ledger as it was.
use compose_cockpit.Base.{String, List, [], ◌∷◌, ◌≡◌, refl, arith, List-cases, inl, inr}
use compose_cockpit.Base.Dict.{Dict}
use compose_cockpit.Base.Results.{Result, ok, err}
use compose_cockpit.Domain.Project.{Service, PortMapping}
use compose_cockpit.Docker.Client.{Event, History, ContainerInfo, Daemon}
use compose_cockpit.Docker.Conflicts.{
  bind_address, check_host_ports, check_host, check_listed, check_port_conflicts,
  check_network_conflict, check_volume_conflict, wanted_ports,
}
use compose_cockpit.Docker.History.{M, ledger}

abbrev Keeps : {A : Type 0} → M A → Type 0
Keeps m = (h : History) → ledger (m h).1 ≡ ledger h

module _ (d : Daemon) where
  check_host_ports-Keeps : (ps : List PortMapping) → Keeps (check_host_ports d ps)
  unfolding check_host_ports
  check_host_ports-Keeps [] h = refl
  check_host_ports-Keeps (p ∷ ps) h = ground (
    arith,
    check_host_ports-Keeps ps h,
    check_host_ports-Keeps ps (Event.listen (bind_address p) p.host_port ∷ h),
  )

  check_host-Keeps : (ss : List Service) → Keeps (check_host d ss)
  unfolding check_host
  check_host-Keeps [] h = refl
  check_host-Keeps (s ∷ ss) h = ground (
    arith,
    check_host_ports-Keeps s.ports h,
    check_host-Keeps ss (check_host_ports d s.ports h).1,
  )

  check_listed-Keeps :
      (ss : List Service) (r : Result String (List ContainerInfo)) → Keeps (check_listed d ss r)
  unfolding check_listed
  check_listed-Keeps ss (err e) h = refl
  check_listed-Keeps ss (ok cs) h = ground (arith, check_host-Keeps ss h)

  pub ledger-check_port_conflicts :
      (ss : List Service) (h : History) → ledger (check_port_conflicts d ss h).1 ≡ ledger h
  unfolding check_port_conflicts
  ledger-check_port_conflicts ss h = elim (List-cases (wanted_ports ss)) [
    | inl e ↦ rw (e, check_port_conflicts)
    | inr (w, ws, e) ↦
        let filters : Dict (List String) = ("status", "running" ∷ []) ∷ [] in
        rw (e, check_port_conflicts)
          (check_listed-Keeps ss (d.on_container_list h filters) (Event.container_list filters ∷ h))
  ]

  pub ledger-check_network_conflict :
      (name : String) (h : History) → ledger (check_network_conflict d name h).1 ≡ ledger h
  unfolding check_network_conflict
  ledger-check_network_conflict name h = ground arith

  pub ledger-check_volume_conflict :
      (name id : String) (h : History) → ledger (check_volume_conflict d name id h).1 ≡ ledger h
  unfolding check_volume_conflict
  ledger-check_volume_conflict name id h = ground arith
