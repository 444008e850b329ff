-- ===== src/Docker/Lifecycle/Calls.antt =====
-- Which calls Stop, Start, Restart and Down make.
use mathlib.Core.List.{reverse, reverse-cons, append_assoc}
use compose_cockpit.Base.{
  String, Bool, false, List, [], ◌∷◌, ◌++◌, ◌≡◌, refl, ap, ◌∙◌, map, filter, Bool-cases, inl, inr,
}
use compose_cockpit.Domain.Operation.{OpStep}
use compose_cockpit.Docker.Client.{Event, ContainerInfo, History, Daemon}
use compose_cockpit.Docker.History.{Ledger, ledger}
use compose_cockpit.Docker.Lifecycle.{
  service_name, step_ok, step_from, chosen, to_stop, to_start, stop_loop, start_loop, restart_loop,
  down_loop,
}

-- The identifiers of the containers that pass a test, in the order of the list.
abbrev pub ids_of : (ContainerInfo → Bool) → List ContainerInfo → List String
ids_of test cs = map (λ c. c.id) (filter test cs)

-- The ledger without the outcome of the starts.
abbrev pub calls : Ledger → Ledger
calls l = record l { containers_started = [] }

module _ (d : Daemon) (services : List String) where
  pub calls-stop_loop :
      (cs : List ContainerInfo) (steps : List OpStep) (h : History)
      → calls (ledger (stop_loop d services cs steps h).1) ≡ record (calls (ledger h)) {
        containers_stopped =
            reverse (ids_of (to_stop services) cs) ++ (ledger h).containers_stopped;
      }
  unfolding stop_loop
  calls-stop_loop [] steps h = refl
  calls-stop_loop (c ∷ cs) steps h = elim (Bool-cases (to_stop services c)) [
    | inl e ↦ rw (e, stop_loop) (calls-stop_loop cs _ _ ∙ simp (reverse-cons, append_assoc))
    | inr e ↦ rw (e, stop_loop) (calls-stop_loop cs steps h)
  ]

  pub calls-start_loop :
      (cs : List ContainerInfo) (steps : List OpStep) (h : History)
      → calls (ledger (start_loop d services cs steps h).1) ≡ record (calls (ledger h)) {
        start_calls = reverse (ids_of (to_start services) cs) ++ (ledger h).start_calls;
      }
  unfolding start_loop
  calls-start_loop [] steps h = refl
  calls-start_loop (c ∷ cs) steps h = elim (Bool-cases (to_start services c)) [
    | inl e ↦ rw (e, start_loop) (calls-start_loop cs _ _ ∙ simp (reverse-cons, append_assoc))
    | inr e ↦ rw (e, start_loop) (calls-start_loop cs steps h)
  ]

  pub calls-restart_loop :
      (cs : List ContainerInfo) (steps : List OpStep) (h : History)
      → calls (ledger (restart_loop d services cs steps h).1) ≡ record (calls (ledger h)) {
        containers_stopped = reverse (ids_of (chosen services) cs) ++ (ledger h).containers_stopped;
        start_calls = reverse (ids_of (chosen services) cs) ++ (ledger h).start_calls;
      }
  unfolding restart_loop
  calls-restart_loop [] steps h = refl
  calls-restart_loop (c ∷ cs) steps h = elim (Bool-cases (chosen services c)) [
    | inl e ↦ rw (e, restart_loop) (calls-restart_loop cs _ _ ∙ simp (reverse-cons, append_assoc))
    | inr e ↦ rw (e, restart_loop) (calls-restart_loop cs steps h)
  ]

  -- The loop of Down handles a part of the containers from the front: all, unless it was cancelled.
  pub down_loop-calls :
      (cs : List ContainerInfo) (steps : List OpStep) (h : History)
      → (done rest : List ContainerInfo) × (cs ≡ done ++ rest)
        × ((down_loop d services cs steps h).0.1 ≡ false → rest ≡ [])
        × (ledger (down_loop d services cs steps h).1 ≡ record (ledger h) {
          containers_stopped =
              reverse (ids_of (chosen services) done) ++ (ledger h).containers_stopped;
          containers_removed =
              reverse (ids_of (chosen services) done) ++ (ledger h).containers_removed;
        })
  unfolding down_loop
  down_loop-calls [] steps h = ([], [], refl, λ _. refl, refl)
  down_loop-calls (c ∷ cs) steps h = elim (Bool-cases (chosen services c)) [
    | inl e ↦ elim (Bool-cases (d.on_ctx_err h)) [
      | inl over ↦ rw (e, over, down_loop) ([], c ∷ cs, refl, (λ f. cc), refl)
      | inr more ↦
          let asked = Event.container_stop c.id ∷ Event.ctx_err ∷ h in
          let r = d.on_container_remove asked c.id in
          let steps' =
            steps ++ step_ok (service_name c) "stop" ∷ step_from (service_name c) "remove" r ∷ [] in
          let (done, rest, split, all, made) =
            down_loop-calls cs steps' (Event.container_remove c.id ∷ asked) in
          rw (e, more, down_loop)
            (c ∷ done, rest, ap (◌∷◌ c) split, all, rw e (made ∙ simp (reverse-cons, append_assoc)))
    ]
    | inr e ↦
        let (done, rest, split, all, made) = down_loop-calls cs steps h in
        rw (e, down_loop) (c ∷ done, rest, ap (◌∷◌ c) split, all, rw e made)
  ]
