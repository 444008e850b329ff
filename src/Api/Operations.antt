-- ===== src/Api/Operations.antt =====
-- internal/api/handlers/operation_handler.go: requests for operations, over the executor. The decoded
-- body of a request and what time.ParseDuration answers are arguments; a timeout is in nanoseconds, as the 64 bits of an int64.
pub mod Requests
use compose_cockpit.Base.{
  ℕ, String, Bool, true, false, Option, none, some, List, [], ◌∷◌, length, same, if◌then◌else◌,
}
use compose_cockpit.Base.Results.{Result, ok, err}
use compose_cockpit.Domain.Errors.{Code, Message, text, AppError, GoError, app, other, no_details}
use compose_cockpit.Domain.User.{role_admin}
use compose_cockpit.Domain.Project.{Project}
use compose_cockpit.Domain.Operation.{
  OperationType, op_up, op_down, op_start, op_stop, op_restart, op_pull, OperationRequest,
  OperationResult,
}
use compose_cockpit.Domain.Operation as Operation
use compose_cockpit.Docker.Client.{Daemon}
use compose_cockpit.Auth.Access.{Claims}
use compose_cockpit.Orchestrator.Heap.{Heap}
use compose_cockpit.Orchestrator.Queue.{queue_len}
use compose_cockpit.Orchestrator.Record.{OperationRecord, Executor}
use compose_cockpit.Orchestrator.Executor.{execute, submit, cancel, get_operation, get_running_ops}
use compose_cockpit.Api.Reply.{Reply, success, failure}

-- OperationBody; a body that does not decode leaves it empty.
pub record OperationBody : Type 0 where
  pub services : List String
  pub timeout : String

-- Five minutes, unless the body gives a duration that can be read.
unfoldable pub timeout_of : (String → Option ℕ) → OperationBody → ℕ
timeout_of parse_duration body =
    if same body.timeout ""
    then 300000000000
    else elim (parse_duration body.timeout) [ none ↦ 300000000000 | some t ↦ t ]

unfoldable pub priority_of : Claims → ℕ
priority_of c = if same c.role role_admin then 100 else 50

-- `domain.OperationType(chi.URLParam(r, "action"))`
unfoldable pub type_of_text : String → OperationType
type_of_text action =
    if same action "up"
    then op_up
    else if same action "down"
    then op_down
    else if same action "start"
    then op_start
    else if same action "stop"
    then op_stop
    else if same action "restart"
    then op_restart
    else if same action "pull"
    then op_pull
    else Operation.other action

-- The request of a handler; `id` is "" where Submit makes the identifier.
unfoldable pub request_for :
    String → OperationType → String → List String → Claims → ℕ → OperationRequest
unfolding priority_of
request_for id type project_id services c timeout = record {
  id = id;
  type = type;
  scope = record { project_id = project_id; services = services };
  user_id = c.user_id;
  priority = priority_of c;
  timeout = timeout;
  created_at = 0;
}

-- An error of the executor: an AppError is answered as it is.
unfoldable pub error_reply : {A : Type 0} → GoError → Reply A
error_reply (app e) = failure e.http_status e.code e.message e.details
error_reply (other m) = failure 500 Code.internal m no_details

abbrev result_reply : Result GoError OperationResult → Reply OperationResult
result_reply (ok r) = success 200 r
result_reply (err e) = error_reply e

module _ (d : Daemon) (resolve : String → Result GoError Project) (auditor : Bool) where
  -- executeOp, and Up, Down, Start, Stop and Restart by the type.
  unfoldable pub execute_op_request :
      (String → Option ℕ)
      → String
      → ℕ
      → OperationType
      → String
      → Claims
      → OperationBody
      → Executor
      → Reply OperationResult × Executor
  unfolding request_for timeout_of
  execute_op_request parse_duration uuid now type project_id c body x =
      let r =
        execute d resolve auditor uuid now
          (request_for uuid type project_id body.services c (timeout_of parse_duration body)) x in
      (result_reply r.0, r.1)

  -- executeServiceOp, and ServiceStart, ServiceStop and ServiceRestart by the type.
  unfoldable pub execute_service_op :
      String
      → ℕ
      → OperationType
      → String
      → String
      → Claims
      → Executor
      → Reply OperationResult × Executor
  unfolding request_for
  execute_service_op uuid now type project_id service c x =
      let r =
        execute d resolve auditor uuid now
          (request_for uuid type project_id (service ∷ []) c 300000000000) x in
      (result_reply r.0, r.1)

-- SubmitAsync: the identifier.
unfoldable pub submit_async :
    Heap
    → (String → Option ℕ)
    → String
    → ℕ
    → String
    → String
    → Claims
    → OperationBody
    → Executor
    → Reply String × Executor
unfolding request_for timeout_of type_of_text
submit_async heap parse_duration uuid now action project_id c body x =
    let r =
      submit heap uuid now
        (request_for "" (type_of_text action) project_id body.services c
          (timeout_of parse_duration body))
        x in
    (success 202 r.0, r.1)

cancel_reply : Option AppError → Reply String
cancel_reply none = success 200 "cancelled"
cancel_reply (some e) = failure e.http_status e.code e.message no_details

-- CancelOperation
unfoldable pub cancel_operation : Heap → String → Executor → Reply String × Executor
unfolding cancel_reply
cancel_operation heap id x = let r = cancel heap id x in (cancel_reply r.0, r.1)

operation_reply : Option OperationRecord → Reply OperationRecord
operation_reply none = failure 404 Code.operation_not_found (text "operation not found") no_details
operation_reply (some r) = success 200 r

-- GetOperation
unfoldable pub get_operation_reply : String → Executor → Reply OperationRecord
unfolding operation_reply
get_operation_reply id x = operation_reply (get_operation id x)

-- ListRunning
unfoldable pub list_running : Executor → Reply (List OperationRequest × ℕ)
list_running x = success 200 (get_running_ops x, queue_len x.queue)
