-- ===== src/Api/Operations/Requests.antt =====
-- A request for an operation of internal/api/handlers/operation_handler.go, and what GetOperation answers
-- for it afterwards.
use compose_cockpit.Base.{
  ℕ, String, Bool, true, false, Option, none, some, ◌≡◌, refl, sym, ap, ◌∙◌, same, if◌then◌else◌,
}
use compose_cockpit.Base.Dict.{lookup}
use compose_cockpit.Base.Results.{Result, ok, err}
use compose_cockpit.Domain.Errors.{GoError, app, other}
use compose_cockpit.Domain.Project.{Project}
use compose_cockpit.Domain.Operation.{OperationType, OperationRequest, OperationResult}
use compose_cockpit.Docker.Client.{Daemon}
use compose_cockpit.Auth.Access.{Claims}
use compose_cockpit.Orchestrator.Lock.{is_locked}
use compose_cockpit.Orchestrator.Record.{Executor}
use compose_cockpit.Orchestrator.Executor.{prepared, run, execute, get_operation}
use compose_cockpit.Orchestrator.Executor.Runs.{get_operation-run}
use compose_cockpit.Api.Reply.{Reply, success, failure}
use compose_cockpit.Api.Operations.{
  OperationBody, timeout_of, request_for, error_reply, result_reply, execute_op_request,
  operation_reply, get_operation_reply,
}

abbrev result_or : OperationResult → Reply OperationResult → OperationResult
result_or s (failure _ _ _ _) = s
result_or s (success status r) = r

-- A reply with a result comes from a result.
result_reply-ok :
    (p : Result GoError OperationResult) (r : OperationResult)
    → result_reply p ≡ success 200 r
    → p ≡ ok r
unfolding error_reply
result_reply-ok (ok s) r e = ap ok (ap (result_or s) e)
result_reply-ok (err (app x)) r e = absurd cc
result_reply-ok (err (other m)) r e = absurd cc

same_either_way : (b : Bool) (s : String) → (if b then s else s) ≡ s
same_either_way true s = refl
same_either_way false s = refl

module _ (d : Daemon) (resolve : String → Result GoError Project) (auditor : Bool) where
  -- If a request for a project that is not locked is answered with a result, GetOperation answers that
  -- result for its identifier afterwards, with the request as it was prepared.
  pub execute_op_request-get_operation_reply :
      (parse_duration : String → Option ℕ) (uuid : String) (now : ℕ) (type : OperationType)
      (project_id : String) (c : Claims) (body : OperationBody) (x : Executor) (r : OperationResult)
      → lookup project_id x.locks ≡ none
      → (execute_op_request d resolve auditor parse_duration uuid now type project_id c body x).0
        ≡ success 200 r
      → get_operation_reply uuid
          (execute_op_request d resolve auditor parse_duration uuid now type project_id c body x).1
        ≡ success 200 (record {
          request =
              prepared uuid now
                (request_for uuid type project_id body.services c (timeout_of parse_duration body));
          result = some r;
          error = none;
        })
  unfolding execute_op_request execute get_operation_reply operation_reply is_locked prepared
      request_for
  execute_op_request-get_operation_reply parse_duration uuid now type project_id c body x r free e =
      let req : OperationRequest =
        request_for uuid type project_id body.services c (timeout_of parse_duration body) in
      let after : Result GoError OperationResult × Executor =
        run d resolve auditor (prepared uuid now req) x in
      let ran : execute d resolve auditor uuid now req x ≡ after = rw (free, execute) refl in
      let gave : after.0 ≡ ok r =
        result_reply-ok after.0 r (ap (λ p. result_reply p.0) (sym ran) ∙ e) in
      let (id, found) =
        get_operation-run d resolve auditor (prepared uuid now req) x free
          (ap (λ z. (z, after.1)) gave) in
      ap (λ p. get_operation_reply uuid p.1) ran
      ∙ ap (λ k. operation_reply (get_operation k after.1))
          (sym (same_either_way (same uuid "") uuid))
      ∙ ap operation_reply found
