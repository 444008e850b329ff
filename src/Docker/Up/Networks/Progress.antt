-- ===== src/Docker/Up/Networks/Progress.antt =====
-- Phase 2 keeps the record of what was created, or ends with the networks removed.
use mathlib.Core.List.{reverse-append}
use compose_cockpit.Base.{String, Option, none, some, List, [], ◌∷◌, ◌++◌, ap, Bool-cases, inl, inr}
use compose_cockpit.Base.Dict.{Dict}
use compose_cockpit.Base.Results.{Result, ok, err}
use compose_cockpit.Base.Text.{cat}
use compose_cockpit.Domain.Errors.{Message, text}
use compose_cockpit.Domain.Operation.{OpStep}
use compose_cockpit.Domain.Project.{Project, Network}
use compose_cockpit.Docker.Client.{Event, History, Daemon}
use compose_cockpit.Docker.Conflicts.Ledgers.{ledger-check_network_conflict}
use compose_cockpit.Docker.History.{Ledger, ledger, contains_text}
use compose_cockpit.Docker.Resolve.{network_name}
use compose_cockpit.Docker.Up.Outcome.{Proceeds, Proceeds-and_then, Holds, rollback_networks-Undone}
use compose_cockpit.Docker.Up.Networks.{
  driver_of, network_labels, abort_network, network_answered, network_checked, up_network,
  up_networks,
}

-- One more network, created last.
Holds-network :
    (nets : List String) (id : String) {l : Ledger}
    → Holds nets [] [] l
    → Holds (nets ++ id ∷ []) [] [] (record l { networks_created = id ∷ l.networks_created })
Holds-network nets id o = record {
  is_open = record {
    networks = rw (reverse-append nets (id ∷ [])) (ap (◌∷◌ id) o.is_open.networks);
    volumes = o.is_open.volumes;
    containers = o.is_open.containers;
    networks_kept = o.is_open.networks_kept;
    volumes_kept = o.is_open.volumes_kept;
  };
  containers_kept = o.containers_kept;
  started = o.started;
}

-- In phase 2 nothing but networks has been created.
abbrev pub NetworksHold : List OpStep × List String → Ledger → Type 0
NetworksHold s l = Holds s.1 [] [] l

module _ (d : Daemon) (p : Project) (steps : List OpStep) (nets : List String) (h : History)
    (o : Holds nets [] [] (ledger h)) where
  abort_network-Proceeds :
      (action : String) (e : Message)
      → Proceeds NetworksHold (abort_network d p action e steps nets h)
  unfolding abort_network
  abort_network-Proceeds action e = rollback_networks-Undone d nets h o.is_open

module _ (d : Daemon) (p : Project) (steps : List OpStep) (nets : List String) where
  network_answered-Proceeds :
      (action actual driver : String) (labels : Dict String) (r : Result String String)
      (h : History)
      → Holds nets [] [] (ledger h)
      → Proceeds NetworksHold (
          network_answered d p action steps nets r
            (Event.network_create actual driver labels r ∷ h))
  unfolding network_answered
  network_answered-Proceeds action actual driver labels (ok id) h o = Holds-network nets id o
  network_answered-Proceeds action actual driver labels (err e) h o =
      elim (Bool-cases (contains_text e "already exists")) [
        | inl found ↦ rw (found, network_answered) o
        | inr other ↦
            rw (other, network_answered) (abort_network-Proceeds d p steps nets _ o action (text e))
      ]

  network_checked-Proceeds :
      (name : String) (def : Network) (c : Option Message) (h : History)
      → Holds nets [] [] (ledger h)
      → Proceeds NetworksHold (network_checked d p name def steps nets c h)
  unfolding network_checked
  network_checked-Proceeds name def (some e) h o =
      abort_network-Proceeds d p steps nets h o (cat "create_network:" name) e
  network_checked-Proceeds name def none h o =
      let (actual, driver, labels) = call in
      network_answered-Proceeds (cat "create_network:" name) actual driver labels
        (d.on_network_create h actual driver labels) h o
    where
      call : String × String × Dict String
      call = (network_name p name def, driver_of def, network_labels p name)

  up_network-Proceeds :
      (name : String) (def : Network) (h : History)
      → Holds nets [] [] (ledger h)
      → Proceeds NetworksHold (up_network d p name def steps nets h)
  unfolding up_network
  up_network-Proceeds name def h o =
      network_checked-Proceeds name def _ _ (rw ledger-check_network_conflict o)

module _ (d : Daemon) (p : Project) where
  pub up_networks-Proceeds :
      (defs : Dict Network) (steps : List OpStep) (nets : List String) (h : History)
      → Holds nets [] [] (ledger h)
      → Proceeds NetworksHold (up_networks d p defs steps nets h)
  unfolding up_networks
  up_networks-Proceeds [] steps nets h o = o
  up_networks-Proceeds ((name, def) ∷ rest) steps nets h o = elim (Bool-cases def.external) [
    | inl e ↦ rw (e, up_networks) (up_networks-Proceeds rest steps nets h o)
    | inr e ↦
        rw (e, up_networks)
          (Proceeds-and_then NetworksHold NetworksHold _ _ _
            (up_network-Proceeds d p steps nets name def h o)
            (λ s h' o'. up_networks-Proceeds rest s.0 s.1 h' o'))
  ]
