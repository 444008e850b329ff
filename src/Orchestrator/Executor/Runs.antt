-- ===== src/Orchestrator/Executor/Runs.antt =====
-- What Executor.run of internal/orchestrator/executor.go leaves behind, and what GetOperation answers
-- then.
use compose_cockpit.Base.{
  suc, String, Bool, none, some, List, [], ◌∷◌, ◌++◌, ◌≡◌, ◌≤◌, ◌<◌, leb→le, leb_false→lt, refl, ap,
  ◌∙◌, same, leb, length, length-append, arith, if◌then◌else◌, same_self, Bool-cases, inl, inr,
}
use compose_cockpit.Base.Dict.{lookup, insert, lookup-delete-insert}
use compose_cockpit.Base.Results.{Result, ok, err}
use compose_cockpit.Domain.Errors.{GoError}
use compose_cockpit.Domain.Operation.{OperationRequest, OperationResult}
use compose_cockpit.Domain.Project.{Project}
use compose_cockpit.Docker.Client.{Daemon}
use compose_cockpit.Orchestrator.Lock.{
  Locks, granted, busy, attempt, attempt-free, release-insert, Attempt,
}
use compose_cockpit.Orchestrator.Executor.{
  outcome, register, unregister, resolved, acquired, run, queued_record, execute_queued, newest,
  get_operation,
}
use compose_cockpit.Orchestrator.Record.{Executor, OperationRecord, max_history, rest, add_history}

-- The parts of the executor that only the locker, the registration and the queue change.
pub record Keeps (x y : Executor) : Type 0 where
  pub locks : y.locks ≡ x.locks
  pub running : y.running ≡ x.running
  pub cancel_fns : y.cancel_fns ≡ x.cancel_fns

length-rest :
    (history : List OperationRecord)
    → 0 < length history
    → suc (length (rest history)) ≡ length history
unfolding rest
length-rest [] h = absurd (omega arith)
length-rest (x ∷ xs) h = refl

-- The history holds at most 256 records.
pub add_history-length :
    (r : OperationRecord) (history : List OperationRecord)
    → length history ≤ max_history
    → length (add_history r history) ≤ max_history
unfolding add_history rest
add_history-length r history h = elim (Bool-cases (leb max_history (length history))) [
  | inl e ↦
      let full = leb→le max_history (length history) e in
      rw (e, add_history, length-append)
        (omega (arith, length-append (rest history) (r ∷ []), length-rest history (omega arith)))
  | inr e ↦
      let room = leb_false→lt max_history (length history) e in
      rw (e, add_history, length-append) (omega (arith, length-append history (r ∷ [])))
]

newest-append :
    (r : OperationRecord) (history : List OperationRecord)
    → newest r.request.id (history ++ r ∷ []) ≡ some r
unfolding newest
newest-append r [] = rw (same_self r.request.id) refl
newest-append r (x ∷ xs) = rw (newest-append r xs, newest) refl

-- The record that was added last is found first.
newest-add_history :
    (r : OperationRecord) (history : List OperationRecord)
    → newest r.request.id (add_history r history) ≡ some r
unfolding add_history
newest-add_history r history = newest-append r _

module _ (d : Daemon) (resolve : String → Result GoError Project) (auditor : Bool) where
  outcome-Keeps :
      (req : OperationRequest) (r : Result GoError OperationResult) (x : Executor)
      → Keeps x (outcome auditor req r x).1
  unfolding outcome
  outcome-Keeps req (ok r) x = record { locks = refl; running = refl; cancel_fns = refl }
  outcome-Keeps req (err e) x = record { locks = refl; running = refl; cancel_fns = refl }

  resolved-Keeps :
      (req : OperationRequest) (p : Result GoError Project) (x : Executor)
      → Keeps x (resolved d resolve auditor req p x).1
  unfolding resolved
  resolved-Keeps req (err e) x = record { locks = refl; running = refl; cancel_fns = refl }
  resolved-Keeps req (ok p) x =
      let k = outcome-Keeps req _ _ in
      record { locks = k.locks; running = k.running; cancel_fns = k.cancel_fns }

  -- A run on a free project goes on with the lock.
  pub run-free :
      (req : OperationRequest) (x : Executor)
      → lookup req.scope.project_id x.locks ≡ none
      → (run d resolve auditor req x
          ≡ acquired d resolve auditor req (granted, insert req.scope.project_id req.id x.locks) x)
  unfolding run
  run-free req x free = rw (attempt-free req.scope.project_id req.id x.locks free) refl

  -- A run of an operation on a project that is free, whatever its outcome, gives the lock back and
  -- leaves the locks of the other projects alone; the operation is no longer among the running ones,
  -- has no cancel function left, and the other operations keep theirs.
  pub run-restores :
      (req : OperationRequest) (x : Executor)
      → lookup req.scope.project_id x.locks ≡ none
      → ((q : String) → lookup q (run d resolve auditor req x).1.locks ≡ lookup q x.locks)
        × ((i : String)
            → lookup i (run d resolve auditor req x).1.running
              ≡ (if same req.id i then none else lookup i x.running))
        × ((i : String)
            → lookup i (run d resolve auditor req x).1.cancel_fns
              ≡ (if same req.id i then none else lookup i x.cancel_fns))
  unfolding acquired register unregister
  run-restores req x free =
      let project = req.scope.project_id in
      let locks = insert project req.id x.locks in
      let k = resolved-Keeps req (resolve project) (register req locks x) in
      rw (run-free req x free, k.locks, k.running, k.cancel_fns)
        (
          (λ q. release-insert project req.id q x.locks free),
          (λ i. lookup-delete-insert req.id i req x.running),
          (λ i. lookup-delete-insert req.id i req.id x.cancel_fns),
        )

  -- A result is the newest record of the history, and an error leaves no record.
  abbrev pub Recorded :
      OperationRequest → List OperationRecord → Result GoError OperationResult × Executor → Type 0
  Recorded req hist (ok r, y) =
      (r.request_id ≡ req.id)
      × (y.history ≡ add_history (record { request = req; result = some r; error = none }) hist)
  Recorded req hist (err e, y) = y.history ≡ hist

  outcome-Recorded :
      (req : OperationRequest) (r : Result GoError OperationResult) (x : Executor)
      → Recorded req x.history (outcome auditor req r x)
  unfolding outcome
  outcome-Recorded req (ok r) x = (refl, refl)
  outcome-Recorded req (err e) x = refl

  resolved-Recorded :
      (req : OperationRequest) (p : Result GoError Project) (x : Executor)
      → Recorded req x.history (resolved d resolve auditor req p x)
  unfolding resolved
  resolved-Recorded req (err e) x = refl
  resolved-Recorded req (ok p) x = outcome-Recorded req _ _

  unregister-Recorded :
      (req : OperationRequest) (hist : List OperationRecord)
      (r : Result GoError OperationResult × Executor)
      → Recorded req hist r
      → Recorded req hist (r.0, unregister req r.1)
  unfolding unregister
  unregister-Recorded req hist (ok r, y) h = h
  unregister-Recorded req hist (err e, y) h = h

  acquired-Recorded :
      (req : OperationRequest) (a : Attempt × Locks) (x : Executor)
      → Recorded req x.history (acquired d resolve auditor req a x)
  unfolding acquired register
  acquired-Recorded req (busy holder, locks) x = refl
  acquired-Recorded req (granted, locks) x =
      unregister-Recorded req x.history _
        (resolved-Recorded req (resolve req.scope.project_id) (register req locks x))

  -- A run that gives a result adds exactly one record of it to the history, under the identifier of the
  -- request; a run that gives an error, also because the project is busy, adds none.
  run-Recorded :
      (req : OperationRequest) (x : Executor) → Recorded req x.history (run d resolve auditor req x)
  unfolding run
  run-Recorded req x = acquired-Recorded req (attempt req.scope.project_id req.id x.locks) x

  -- After a run that gives a result GetOperation finds it, unless the identifier is taken by another
  -- running operation still.
  pub get_operation-run :
      (req : OperationRequest) (x : Executor) {r : OperationResult} {y : Executor}
      → lookup req.scope.project_id x.locks ≡ none
      → run d resolve auditor req x ≡ (ok r, y)
      → (r.request_id ≡ req.id)
        × (get_operation req.id y ≡ some (record { request = req; result = some r; error = none }))
  unfolding get_operation
  get_operation-run req x {r} {y} free ran =
      let (id, found) = rw ran at (run-Recorded req x) in
      let (locks, running, fns) = rw ran at (run-restores req x free) in
      let record_of : OperationRecord = record { request = req; result = some r; error = none } in
      let gone : lookup req.id y.running ≡ none = running req.id ∙ rw (same_self req.id) refl in
      (id, rw (gone, found, get_operation) (newest-add_history record_of x.history))

  -- A queued operation that gives a result is in the history twice: `run` adds a record, and so does
  -- `executeQueued`.
  execute_queued-twice :
      (req : OperationRequest) (x : Executor) {r : OperationResult} {y : Executor}
      → run d resolve auditor req x ≡ (ok r, y)
      → (execute_queued d resolve auditor req x).history
        ≡ add_history
            (record { request = req; result = some r; error = none })
            (add_history (record { request = req; result = some r; error = none }) x.history)
  unfolding execute_queued queued_record
  execute_queued-twice req x {r} {y} ran =
      rw ran (ap (add_history _) (rw ran at (run-Recorded req x)).1)

  -- The history stays within its bound of 256 records, whatever a queued operation does.
  execute_queued-length :
      (req : OperationRequest) (x : Executor)
      → length x.history ≤ max_history
      → length (execute_queued d resolve auditor req x).history ≤ max_history
  unfolding execute_queued
  execute_queued-length req x h =
      add_history-length _ _ (bounded (run d resolve auditor req x) (run-Recorded req x))
    where
      bounded :
          (z : Result GoError OperationResult × Executor)
          → Recorded req x.history z
          → length z.1.history ≤ max_history
      bounded (ok r, y) k = rw k.1 (add_history-length _ x.history h)
      bounded (err e, y) k = rw k h
