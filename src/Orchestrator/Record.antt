-- ===== src/Orchestrator/Record.antt =====
-- internal/orchestrator/executor.go: the state of the executor, its history, executeOp, and the entry
-- that it logs.
use compose_cockpit.Base.{
  ℕ, String, Option, none, some, List, [], ◌∷◌, ◌++◌, leb, length, if◌then◌else◌,
}
use compose_cockpit.Base.Dict.{Dict}
use compose_cockpit.Base.Results.{Result, ok, err}
use compose_cockpit.Domain.Errors.{
  Code, Message, AppError, new_app_error, GoError, app, text, locked_by, unsupported_type, Details,
  holder_details,
}
use compose_cockpit.Domain.Errors as Errors
use compose_cockpit.Domain.Operation.{
  OperationType, op_up, op_down, op_start, op_stop, op_restart, op_pull, OpStatus, OperationRequest,
  OpError, OperationResult,
}
use compose_cockpit.Domain.Operation as Operation
use compose_cockpit.Domain.Project.{Project}
use compose_cockpit.Docker.Client.{History, Daemon}
use compose_cockpit.Docker.History.{M}
use compose_cockpit.Docker.Lifecycle.{down, start, stop, restart}
use compose_cockpit.Docker.Up.{up}
use compose_cockpit.Orchestrator.Lock.{Locks}
use compose_cockpit.Orchestrator.Queue.{Queue}

-- domain.AuditEntry, less its times; `scope` is empty where the Go field is nil.
pub record AuditEntry : Type 0 where
  pub user_id : String
  pub project_id : String
  pub operation : OperationType
  pub scope : List String
  pub status : OpStatus
  pub error_code : Option Code
  pub error_msg : Option Message

pub record OperationRecord : Type 0 where
  pub request : OperationRequest
  pub result : Option OperationResult
  pub error : Option GoError

-- The executor with what its calls change: the locks, the daemon's history and the audit log.
-- `cancelled` holds the operations whose context Cancel has ended.
pub record Executor : Type 0 where
  pub locks : Locks
  pub queue : Queue
  pub running : Dict OperationRequest
  pub cancel_fns : Dict String
  pub history : List OperationRecord
  pub docker : History
  pub audit : List AuditEntry
  pub cancelled : List String

abbrev pub max_history : ℕ
max_history = 256

-- `history[1:]`
unfoldable pub rest : List OperationRecord → List OperationRecord
rest [] = []
rest (x ∷ xs) = xs

unfoldable pub add_history : OperationRecord → List OperationRecord → List OperationRecord
unfolding rest
add_history r history =
    (if leb max_history (length history) then rest history else history) ++ r ∷ []

-- The result of Up, whose errors are all application errors.
of_up : Result AppError OperationResult → Result GoError OperationResult
of_up (ok r) = ok r
of_up (err e) = err (app e)

-- The text of `req.Type`.
type_text : OperationType → String
type_text op_up = "up"
type_text op_down = "down"
type_text op_start = "start"
type_text op_stop = "stop"
type_text op_restart = "restart"
type_text op_pull = "pull"
type_text (OperationType.other t) = t

unfoldable pub execute_op : Daemon → OperationRequest → Project → M (Result GoError OperationResult)
unfolding of_up type_text
execute_op d req p h = by_type req.type
  where
    unsupported : OperationType → Result GoError OperationResult × History
    unsupported t =
        (err (app (new_app_error Code.validation (unsupported_type (type_text t)) 400)), h)

    by_type : OperationType → Result GoError OperationResult × History
    by_type op_up = let r = up d p req.scope.services h in (of_up r.0, r.1)
    by_type op_down = down d p req.scope.services h
    by_type op_start = start d p req.scope.services h
    by_type op_stop = stop d p req.scope.services h
    by_type op_restart = restart d p req.scope.services h
    by_type op_pull = unsupported op_pull
    by_type (OperationType.other t) = unsupported (OperationType.other t)

-- The code and the message that the audit log keeps of an error.
unfoldable pub audit_code : GoError → Code
audit_code (app e) = e.code
audit_code (Errors.other m) = Code.internal

unfoldable pub audit_message : GoError → Message
audit_message (app e) = e.message
audit_message (Errors.other m) = m

-- The entry that `run` logs for the outcome of the operation.
unfoldable pub audit_entry : OperationRequest → Result GoError OperationResult → AuditEntry
unfolding audit_code audit_message
audit_entry req (ok r) = record {
  user_id = req.user_id;
  project_id = req.scope.project_id;
  operation = req.type;
  scope = req.scope.services;
  status = r.status;
  error_code = elim r.error [ none ↦ none | some e ↦ some e.code ];
  error_msg = elim r.error [ none ↦ none | some e ↦ some e.message ];
}
audit_entry req (err e) = record {
  user_id = req.user_id;
  project_id = req.scope.project_id;
  operation = req.type;
  scope = req.scope.services;
  status = Operation.failed;
  error_code = some (audit_code e);
  error_msg = some (audit_message e);
}
