-- ===== src/Orchestrator/Executor/Audits.antt =====
-- What Executor.run of internal/orchestrator/executor.go logs and does to the daemon.
use compose_cockpit.Base.{Option, some, ◌⊎◌, String, Bool, none, [], ◌∷◌, ◌++◌, ◌≡◌, if◌then◌else◌}
use compose_cockpit.Base.Dict.{lookup}
use compose_cockpit.Base.Results.{Result, ok, err}
use compose_cockpit.Domain.Errors.{Code, Message, GoError, app}
use compose_cockpit.Domain.Errors as Errors
use compose_cockpit.Domain.Operation as Operation
use compose_cockpit.Domain.Operation.{OpError, OpStatus, OperationRequest, OperationResult}
use compose_cockpit.Domain.Project.{Project}
use compose_cockpit.Docker.Client.{Daemon}
use compose_cockpit.Orchestrator.Lock.{acquire_cancelled}
use compose_cockpit.Orchestrator.Record.{Executor, AuditEntry, execute_op}

-- The entry of an answer: who asked for what on which project, and the status of the result with its
-- error, or "failed" with the error that was answered.
abbrev pub of_request : OperationRequest → OpStatus → Option Code → Option Message → AuditEntry
of_request req status code message = record {
  user_id = req.user_id;
  project_id = req.scope.project_id;
  operation = req.type;
  scope = req.scope.services;
  status = status;
  error_code = code;
  error_msg = message;
}

abbrev code_in : Option OpError → Option Code
code_in none = none
code_in (some e) = some e.code

abbrev message_in : Option OpError → Option Message
message_in none = none
message_in (some e) = some e.message

abbrev pub entry_of_answer : OperationRequest → Result GoError OperationResult → AuditEntry
entry_of_answer req (ok r) = of_request req r.status (code_in r.error) (message_in r.error)
entry_of_answer req (err (app e)) = of_request req Operation.failed (some e.code) (some e.message)
entry_of_answer req (err (Errors.other m)) =
    of_request req Operation.failed (some Code.internal) (some m)

-- What a run has answered, logged and done: the project was locked, or unknown, or the operation ran.
abbrev pub Audited :
    Daemon
    → (String → Result GoError Project)
    → Bool
    → OperationRequest
    → Executor
    → Result GoError OperationResult × Executor
    → Type 0
Audited d resolve auditor req x (answer, y) =
    ((holder : String) × (lookup req.scope.project_id x.locks ≡ some holder)
      × (answer ≡ err (app (acquire_cancelled req.scope.project_id holder)))
      × (y ≡ x))
    ⊎ ((e : GoError) × (lookup req.scope.project_id x.locks ≡ none)
        × (resolve req.scope.project_id ≡ err e)
        × (answer ≡ err e)
        × (y.audit ≡ x.audit)
        × (y.docker ≡ x.docker))
    ⊎ ((p : Project) × (lookup req.scope.project_id x.locks ≡ none)
        × (resolve req.scope.project_id ≡ ok p)
        × (y.docker ≡ (execute_op d req p x.docker).1)
        × (y.audit ≡ (if auditor then x.audit ++ entry_of_answer req answer ∷ [] else x.audit)))
