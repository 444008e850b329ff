-- ===== src/Docker/Up/Steps.antt =====
-- Operations.Up of internal/docker/operations.go: how a loop body ends, and the steps and results that
-- it records. A body that returns early answers `stop`; otherwise it answers `go` with its state.
use compose_cockpit.Base.{String, Option, none, some, List, [], ◌∷◌, ◌++◌}
use compose_cockpit.Domain.Errors.{Code, Message}
use compose_cockpit.Domain.Operation.{
  OpStatus, succeeded, failed, rolled_back, OpError, OpStep, OperationResult,
}
use compose_cockpit.Docker.History.{M, return}

pub data Flow (A : Type 0) : Type 0 where
  go : A → Flow A
  stop : OperationResult → Flow A

abbrev pub and_then : {A B : Type 0} → Flow A → (A → M (Flow B)) → M (Flow B)
and_then (go a) k = k a
and_then (stop r) k = return (stop r)

abbrev pub step_of : String → String → OpStatus → Option Message → OpStep
step_of service action status error = record {
  service = service;
  action = action;
  status = status;
  error = error;
}

abbrev pub result_of : OpStatus → Option OpError → List OpStep → OperationResult
result_of status error steps = record {
  request_id = "";
  status = status;
  error = error;
  steps = steps;
}

-- The result of a phase that failed at a step, after its rollback.
abbrev pub rolled_back_at :
    String → String → Message → Code → Message → List OpStep → OperationResult
rolled_back_at service action e code message steps =
    result_of rolled_back (some (record { code = code; message = message }))
      (steps ++ step_of service action failed (some e) ∷ [])

abbrev pub done_step : String → String → List OpStep → List OpStep
done_step service action steps = steps ++ step_of service action succeeded none ∷ []
