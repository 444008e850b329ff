-- ===== src/Docker/Lifecycle/Effects.antt =====
-- What Stop, Start, Restart and Down do to the containers that the daemon lists for the project.
use mathlib.Core.List.{reverse}
use compose_cockpit.Base.{
  String, Bool, true, false, none, List, [], ◌∷◌, ◌++◌, ◌≡◌, refl, ap, ◌∙◌, Bool-cases, inl, inr,
}
use compose_cockpit.Base.Results.{ok}
use compose_cockpit.Domain.Operation.{succeeded, OpStep, OperationResult}
use compose_cockpit.Domain.Project.{Project}
use compose_cockpit.Docker.Client.{Event, ContainerInfo, NetworkInfo, History, Daemon}
use compose_cockpit.Docker.History.{Ledger, ledger}
use compose_cockpit.Docker.Up.Steps.{result_of}
use compose_cockpit.Docker.Lifecycle.Calls.{
  ids_of, calls, calls-stop_loop, calls-start_loop, calls-restart_loop, down_loop-calls,
}
use compose_cockpit.Docker.Lifecycle.{
  chosen, to_stop, to_start, project_filter, down_loop, run_loop, stop, start, restart, down, owned,
  network_loop, listed, down_networks, down_rest, down_listed,
}

-- The ledger but for the networks removed.
abbrev pub but_networks : Ledger → Ledger
but_networks l = record l { networks_removed = [] }

network_loop-but_networks :
    (d : Daemon) (p : Project) (ns : List NetworkInfo) (steps : List OpStep) (h : History)
    → but_networks (ledger (network_loop d p ns steps h).1) ≡ but_networks (ledger h)
unfolding network_loop
network_loop-but_networks d p [] steps h = refl
network_loop-but_networks d p (n ∷ ns) steps h = elim (Bool-cases (owned d p n)) [
  | inl e ↦ rw (e, network_loop) (network_loop-but_networks d p ns _ _)
  | inr e ↦ rw (e, network_loop) (network_loop-but_networks d p ns steps h)
]

down_networks-but_networks :
    (d : Daemon) (p : Project) (services : List String) (steps : List OpStep) (h : History)
    → but_networks (ledger (down_networks d p services steps h).1) ≡ but_networks (ledger h)
unfolding down_networks
down_networks-but_networks d p [] steps h =
    network_loop-but_networks d p (listed d (d.on_network_list h)) steps (Event.network_list ∷ h)
down_networks-but_networks d p (s ∷ ss) steps h = refl

down_rest-but_networks :
    (d : Daemon) (p : Project) (services : List String) (x : List OpStep × Bool) (h : History)
    → but_networks (ledger (down_rest d p services x h).1) ≡ but_networks (ledger h)
unfolding down_rest
down_rest-but_networks d p services (steps, true) h = refl
down_rest-but_networks d p services (steps, false) h =
    down_networks-but_networks d p services steps h

down_rest-succeeded :
    (d : Daemon) (p : Project) (services : List String) (x : List OpStep × Bool) (h : History)
    {r : OperationResult}
    → (down_rest d p services x h).0 ≡ ok r
    → r.status ≡ succeeded
    → x.1 ≡ false
unfolding down_rest
down_rest-succeeded d p services (steps, true) h e s = cc
down_rest-succeeded d p services (steps, false) h e s = refl

down_rest-part :
    (d : Daemon) (p : Project) (services : List String) (s : String) (ss : List String)
    (x : List OpStep × Bool) (h : History)
    → services ≡ s ∷ ss
    → (ledger (down_rest d p services x h).1).networks_removed ≡ (ledger h).networks_removed
unfolding down_rest down_networks
down_rest-part d p services s ss (steps, true) h e = refl
down_rest-part d p services s ss (steps, false) h e = rw (e, down_networks) refl

module _ (d : Daemon) (p : Project) (services : List String) (h : History) {cs : List ContainerInfo}
    (list : d.on_container_list h (project_filter p) ≡ ok cs) where
  -- Stop succeeds whatever the stops answer; it stops, in the daemon's order, the listed containers
  -- of the services asked for that are running, and does nothing else.
  stop-calls :
      ((steps : List OpStep) × ((stop d p services h).0 ≡ ok (result_of succeeded none steps)))
      × (calls (ledger (stop d p services h).1) ≡ record (calls (ledger h)) {
        containers_stopped =
            reverse (ids_of (to_stop services) cs) ++ (ledger h).containers_stopped;
      })
  unfolding stop
  stop-calls =
      rw (list, run_loop)
        ((_, refl), calls-stop_loop d services cs [] (Event.container_list (project_filter p) ∷ h))

  -- Start succeeds whatever the starts answer; it asks for a start of the listed containers of the
  -- services asked for that are not running, in the daemon's order, and does nothing else.
  start-calls :
      ((steps : List OpStep) × ((start d p services h).0 ≡ ok (result_of succeeded none steps)))
      × (calls (ledger (start d p services h).1) ≡ record (calls (ledger h)) {
        start_calls = reverse (ids_of (to_start services) cs) ++ (ledger h).start_calls;
      })
  unfolding start
  start-calls =
      rw (list, run_loop)
        ((_, refl), calls-start_loop d services cs [] (Event.container_list (project_filter p) ∷ h))

  -- Restart succeeds whatever the calls answer; it stops every listed container of the services asked
  -- for and asks for its start, and does nothing else.
  restart-calls :
      ((steps : List OpStep) × ((restart d p services h).0 ≡ ok (result_of succeeded none steps)))
      × (calls (ledger (restart d p services h).1) ≡ record (calls (ledger h)) {
        containers_stopped = reverse (ids_of (chosen services) cs) ++ (ledger h).containers_stopped;
        start_calls = reverse (ids_of (chosen services) cs) ++ (ledger h).start_calls;
      })
  unfolding restart
  restart-calls =
      rw (list, run_loop)
        (
          (_, refl),
          calls-restart_loop d services cs [] (Event.container_list (project_filter p) ∷ h),
        )

  -- Down stops and removes, in the daemon's order, the listed containers of the services asked for
  -- from a front part of the list, which is the whole list if Down succeeds; whatever it does to
  -- networks, it starts and creates nothing and removes no volume.
  pub down-calls :
      {r : OperationResult}
      → (down d p services h).0 ≡ ok r
      → (done rest : List ContainerInfo) × (cs ≡ done ++ rest)
        × (r.status ≡ succeeded → rest ≡ [])
        × (but_networks (ledger (down d p services h).1) ≡ record (but_networks (ledger h)) {
          containers_stopped =
              reverse (ids_of (chosen services) done) ++ (ledger h).containers_stopped;
          containers_removed =
              reverse (ids_of (chosen services) done) ++ (ledger h).containers_removed;
        })
  unfolding down down_listed
  down-calls {r} =
      let h' = Event.container_list (project_filter p) ∷ h in
      let x = down_loop d services cs [] h' in
      let (done, rest, split, all, made) = down_loop-calls d services cs [] h' in
      rw (list, down_listed)
        (λ e. (
          done,
          rest,
          split,
          (λ s. all (down_rest-succeeded d p services x.0 x.1 {r = r} e s)),
          down_rest-but_networks d p services x.0 x.1 ∙ ap but_networks made,
        ))

  -- A Down of named services removes no network.
  down_part_networks :
      (s : String) (ss : List String)
      → services ≡ s ∷ ss
      → (ledger (down d p services h).1).networks_removed ≡ (ledger h).networks_removed
  unfolding down down_listed
  down_part_networks s ss e =
      let h' = Event.container_list (project_filter p) ∷ h in
      let x = down_loop d services cs [] h' in
      let (done, rest, split, all, made) = down_loop-calls d services cs [] h' in
      rw (list, down_listed)
        (down_rest-part d p services s ss x.0 x.1 e ∙ ap (λ l. l.networks_removed) made)
