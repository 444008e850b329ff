-- ===== src/Orchestrator/Executor.antt =====
-- internal/orchestrator/executor.go: Executor. The functions follow one operation that runs without
-- another one in between; several at the same time are in Orchestrator/Executor/Interleaved.
pub mod Runs
pub mod Cancels
pub mod Audits
pub mod Progress
pub mod Interleaved
use compose_cockpit.Base.{
  ℕ, zero, suc, String, Bool, true, false, Option, none, some, List, [], ◌∷◌, ◌++◌, ◌≡◌, refl, same,
  leb, ◌==◌, length, map, if◌then◌else◌,
}
use compose_cockpit.Base.Dict.{Dict, lookup, insert, delete}
use compose_cockpit.Base.Results.{Result, ok, err}
use compose_cockpit.Domain.Errors.{
  Code, Message, AppError, new_app_error, GoError, app, text, locked_by, unsupported_type, Details,
  holder_details,
}
use compose_cockpit.Domain.Errors as Errors
use compose_cockpit.Domain.Operation.{
  OperationType, op_up, op_down, op_start, op_stop, op_restart, op_pull, OpStatus, OperationRequest,
  OpError, OperationResult,
}
use compose_cockpit.Domain.Operation as Operation
use compose_cockpit.Domain.Project.{Project}
use compose_cockpit.Docker.Client.{History, Daemon}
use compose_cockpit.Docker.History.{M}
use compose_cockpit.Docker.Lifecycle.{down, start, stop, restart}
use compose_cockpit.Docker.Up.{up}
use compose_cockpit.Orchestrator.Heap.{Heap}
use compose_cockpit.Orchestrator.Lock.{
  Locks, Attempt, granted, busy, attempt, acquire_cancelled, is_locked, release,
}
use compose_cockpit.Orchestrator.Queue.{
  Queue, enqueue, Dequeued, got, waits, done, dequeue, remove_and_return,
}
use compose_cockpit.Orchestrator.Record.{
  AuditEntry, OperationRecord, Executor, max_history, add_history, execute_op, audit_entry,
}

-- The audit log gets the entry if there is an auditor.
logged : Bool → AuditEntry → List AuditEntry → List AuditEntry
logged auditor entry log = if auditor then log ++ entry ∷ [] else log

-- After executeOp: audit, history and result.
outcome :
    Bool
    → OperationRequest
    → Result GoError OperationResult
    → Executor
    → Result GoError OperationResult × Executor
unfolding logged add_history
outcome auditor req (err e) x =
    (err e, record x { audit = logged auditor (audit_entry req (err e)) x.audit })
outcome auditor req (ok r) x =
    let result = record r { request_id = req.id } in
    (
      ok result,
      record x {
        audit = logged auditor (audit_entry req (ok r)) x.audit;
        history =
            add_history (record { request = req; result = some result; error = none }) x.history;
      },
    )

-- The registration under `running` and `cancelFns`, and the deferred functions that undo it.
register : OperationRequest → Locks → Executor → Executor
register req locks x = record x {
  locks = locks;
  running = insert req.id req x.running;
  cancel_fns = insert req.id req.id x.cancel_fns;
}

unregister : OperationRequest → Executor → Executor
unregister req x = record x {
  locks = release req.scope.project_id x.locks;
  running = delete req.id x.running;
  cancel_fns = delete req.id x.cancel_fns;
}

-- `if req.ID == ""`, `if req.Timeout == 0` (five minutes, in nanoseconds) and `req.CreatedAt`.
unfoldable pub prepared : String → ℕ → OperationRequest → OperationRequest
prepared uuid now req = record req {
  id = if same req.id "" then uuid else req.id;
  timeout = if req.timeout == 0 then 300000000000 else req.timeout;
  created_at = now;
}

module _ (d : Daemon) (resolve : String → Result GoError Project) (auditor : Bool) where
  -- After resolver.GetProject.
  resolved :
      OperationRequest
      → Result GoError Project
      → Executor
      → Result GoError OperationResult × Executor
  unfolding outcome
  resolved req (err e) x = (err e, x)
  resolved req (ok p) x =
      let r = execute_op d req p x.docker in outcome auditor req r.0 (record x { docker = r.1 })

  -- After locker.Acquire. A busy project stays busy for one that runs alone, until its context ends.
  pub acquired :
      OperationRequest → Attempt × Locks → Executor → Result GoError OperationResult × Executor
  unfolding resolved register unregister
  acquired req (busy holder, locks) x =
      (err (app (acquire_cancelled req.scope.project_id holder)), x)
  acquired req (granted, locks) x =
      let r = resolved req (resolve req.scope.project_id) (register req locks x) in
      (r.0, unregister req r.1)

  unfoldable pub run : OperationRequest → Executor → Result GoError OperationResult × Executor
  unfolding acquired
  run req x = acquired req (attempt req.scope.project_id req.id x.locks) x

  unfoldable pub execute :
      String → ℕ → OperationRequest → Executor → Result GoError OperationResult × Executor
  unfolding run
  execute uuid now req x = elim (is_locked req.scope.project_id x.locks) [
    | none ↦ run (prepared uuid now req) x
    | some holder ↦ (
      err (
          app (record {
            code = Code.operation_in_progress;
            message = locked_by holder;
            http_status = 409;
            details = holder_details holder;
          })),
      x,
    )
  ]

  -- The record that executeQueued adds.
  queued_record : OperationRequest → Result GoError OperationResult → OperationRecord
  queued_record req (ok r) = record { request = req; result = some r; error = none }
  queued_record req (err e) = record { request = req; result = none; error = some e }

  unfoldable pub execute_queued : OperationRequest → Executor → Executor
  unfolding run queued_record add_history
  execute_queued req x =
      let r = run req x in record r.1 { history = add_history (queued_record req r.0) r.1.history }

-- Submit: the identifier, and the executor with the request in its queue.
unfoldable pub submit : Heap → String → ℕ → OperationRequest → Executor → String × Executor
submit heap uuid now req x =
    let r = prepared uuid now req in (r.id, record x { queue = enqueue heap now r x.queue })

-- The record that Cancel adds for a request that was waiting.
pub cancelled_record : OperationRequest → String → OperationRecord
cancelled_record req id = record {
  request = req;
  result =
      some (record { request_id = id; status = Operation.cancelled; error = none; steps = [] });
  error = none;
}

pub operation_not_found : AppError
operation_not_found =
    new_app_error Code.operation_not_found (text "operation not found or already completed") 404

-- Cancel of an operation that does not run.
cancel_queued : Heap → String → Executor → Option AppError × Executor
unfolding cancelled_record operation_not_found add_history
cancel_queued heap id x =
    let found = remove_and_return heap id x.queue in
    elim found.0 [
      | none ↦ (some operation_not_found, record x { queue = found.1 })
      | some req ↦ (
        none,
        record x { queue = found.1; history = add_history (cancelled_record req id) x.history },
      )
    ]

unfoldable pub cancel : Heap → String → Executor → Option AppError × Executor
unfolding cancel_queued
cancel heap id x = elim (lookup id x.cancel_fns) [
  | none ↦ cancel_queued heap id x
  | some op ↦ (none, record x { cancelled = op ∷ x.cancelled })
]

-- The loop of GetOperation over the history, from its end.
unfoldable pub newest : String → List OperationRecord → Option OperationRecord
newest id [] = none
newest id (r ∷ rs) =
    let later = newest id rs in
    elim later [ some l ↦ some l | none ↦ if same r.request.id id then some r else none ]

running_record : String → OperationRequest → OperationRecord
running_record id req = record {
  request = req;
  result = some (record { request_id = id; status = Operation.running; error = none; steps = [] });
  error = none;
}

unfoldable pub get_operation : String → Executor → Option OperationRecord
unfolding newest running_record
get_operation id x = elim (lookup id x.running) [
  | some req ↦ some (running_record id req)
  | none ↦ newest id x.history
]

-- GetRunningOps
pub get_running_ops : Executor → List OperationRequest
get_running_ops x = map (λ e. e.1) x.running

-- One pass of `worker`: whether it goes on, after which request, and the executor; `over` is
-- `ctx.Err() != nil`.
pub data Pass : Type 0 where
  waits_for_work ends : Pass
  goes_on : OperationRequest → Pass

module _ (heap : Heap) (d : Daemon) (resolve : String → Result GoError Project)
    (auditor : Bool) where
  after_dequeue : Bool → Dequeued × Queue → Executor → Pass × Executor
  unfolding execute_queued
  after_dequeue over (waits, q) x = (waits_for_work, x)
  after_dequeue over (done, q) x = (ends, x)
  after_dequeue over (got req, q) x =
      if over
      then (ends, record x { queue = q })
      else (goes_on req, execute_queued d resolve auditor req (record x { queue = q }))

  unfoldable pub worker_pass : Bool → Executor → Pass × Executor
  unfolding after_dequeue
  worker_pass over x = after_dequeue over (dequeue heap x.queue) x

  -- The requests that the loop of `worker` runs in the given number of passes, if the context does not end.
  next_pass :
      (Executor → List OperationRequest × Executor)
      → Pass × Executor
      → List OperationRequest × Executor
  next_pass loop (waits_for_work, x) = ([], x)
  next_pass loop (ends, x) = ([], x)
  next_pass loop (goes_on req, x) = let rest = loop x in (req ∷ rest.0, rest.1)

  unfoldable pub worker_loop : ℕ → Executor → List OperationRequest × Executor
  unfolding worker_pass next_pass
  worker_loop zero x = ([], x)
  worker_loop (suc n) x = next_pass (worker_loop n) (worker_pass false x)
