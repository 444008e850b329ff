-- ===== src/Tests/Operations.antt =====
-- Operations that are submitted, run and cancelled.
use mathlib.Core.List.{Perm}
use compose_cockpit.Base.{
  ℕ, List, String, true, false, none, some, [], ◌∷◌, ◌≡◌, refl, same, if◌then◌else◌,
}
use compose_cockpit.Base.Dict.{lookup}
use compose_cockpit.Base.Results.{Result, ok}
use compose_cockpit.Domain.Errors.{GoError}
use compose_cockpit.Domain.Operation.{op_stop, OperationRequest, OperationResult}
use compose_cockpit.Domain.Project.{Project}
use compose_cockpit.Docker.Lifecycle.{stop, is_running, service_name}
use compose_cockpit.Docker.Resolve.{selected, label}
use compose_cockpit.Orchestrator.Executor.{
  run, execute, worker_loop, submit, cancel, prepared, cancelled_record,
}
use compose_cockpit.Orchestrator.Record.{Executor, add_history, execute_op}
use compose_cockpit.Orchestrator.Executor.Cancels.{cancel-submit}
use compose_cockpit.Orchestrator.Executor.Runs.{run-restores}
use compose_cockpit.Orchestrator.Executor.Progress.{
  worker_loop-serves, with_queue, emptied, run_all,
}
use compose_cockpit.Orchestrator.Exclusion.{System, Step, Reached, start, Agrees, Reached-Agrees}
use compose_cockpit.Orchestrator.Heap.{less}
use compose_cockpit.Orchestrator.Lock.{attempt, is_locked}
use compose_cockpit.Orchestrator.Queue.{Queue, drain, queue_len}
use compose_cockpit.Orchestrator.Queue.Order.{Sorted, drain-Sorted}
use compose_cockpit.Api.Reply.{Reply, success}
use compose_cockpit.Api.Operations.{
  OperationBody, timeout_of, priority_of, request_for, execute_op_request, get_operation_reply,
}
use compose_cockpit.Api.Operations.Requests.{execute_op_request-get_operation_reply}
use compose_cockpit.Tests.Requests.{bob}
use compose_cockpit.Tests.Scan.{scan, scan_heap}
use compose_cockpit.Tests.Shop.{shop, calm}

abbrev pub request_of : String → ℕ → ℕ → OperationRequest
request_of id priority created = record {
  id = id;
  type = op_stop;
  scope = record { project_id = "p1"; services = [] };
  user_id = "ann";
  priority = priority;
  timeout = 60;
  created_at = created;
}

abbrev pub two_waiting : Queue
two_waiting = record { items = request_of "o1" 50 10 ∷ request_of "o2" 100 20 ∷ []; closed = false }

abbrev pub idle : Executor
idle = record {
  locks = [];
  queue = two_waiting;
  running = [];
  cancel_fns = [];
  history = [];
  docker = [];
  audit = [];
  cancelled = [];
}

abbrev pub resolve_shop : String → Result GoError Project
resolve_shop id = ok shop

-- The request of the higher priority is served first.
drains : drain scan_heap 2 two_waiting ≡ request_of "o2" 100 20 ∷ request_of "o1" 50 10 ∷ []
unfolding drain scan less
drains = refl

drain-Sorted_example :
    Sorted (drain scan_heap (queue_len two_waiting) two_waiting)
    × Perm (drain scan_heap (queue_len two_waiting) two_waiting) two_waiting.items
drain-Sorted_example = drain-Sorted scan_heap two_waiting tt

-- Two operations take two projects, and the first is given back.
abbrev empty_system : System
empty_system = record { locks = []; held = [] }

taken : Reached (record { locks = ("p1", "o1") ∷ []; held = ("p1", "o1") ∷ [] })
unfolding attempt
taken = Reached.next start (Step.acquired empty_system "p1" "o1" refl)

Reached-Agrees_example : Agrees (record { locks = ("p1", "o1") ∷ []; held = ("p1", "o1") ∷ [] })
Reached-Agrees_example = Reached-Agrees taken

run-restores_example :
    ((q : String)
      → lookup q (run calm resolve_shop true (request_of "o1" 50 10) idle).1.locks ≡ none)
    × ((i : String)
        → lookup i (run calm resolve_shop true (request_of "o1" 50 10) idle).1.running
          ≡ (if same "o1" i then none else none))
    × ((i : String)
        → lookup i (run calm resolve_shop true (request_of "o1" 50 10) idle).1.cancel_fns
          ≡ (if same "o1" i then none else none))
run-restores_example = run-restores calm resolve_shop true (request_of "o1" 50 10) idle refl

abbrev after_run : Executor
after_run = (run calm resolve_shop true (request_of "o1" 50 10) idle).1

ran :
    (r : OperationResult) × (run calm resolve_shop true (request_of "o1" 50 10) idle
      ≡ (ok r, after_run))
unfolding run execute_op stop selected is_running service_name label attempt
ran = (_, refl)

cancel-submit_example :
    let s = submit scan_heap "u7" 30 (request_of "" 50 0) idle in
    let c = cancel scan_heap s.0 s.1 in
    (c.0 ≡ none)
    × (taken : OperationRequest) × (taken.id ≡ s.0)
    × Perm (taken ∷ c.1.queue.items) (prepared "u7" 30 (request_of "" 50 0) ∷ two_waiting.items)
    × (c.1.history ≡ add_history (cancelled_record taken s.0) [])
cancel-submit_example = cancel-submit scan_heap "u7" 30 (request_of "" 50 0) idle tt refl

abbrev no_body : OperationBody
no_body = record { services = []; timeout = "" }

abbrev stop_p1 : Reply OperationResult × Executor
stop_p1 =
    execute_op_request calm resolve_shop true (λ t. none) "o1" 10 op_stop "p1" bob no_body idle

answered : (r : OperationResult) × (stop_p1.0 ≡ success 200 r)
unfolding execute_op_request execute is_locked request_for prepared timeout_of priority_of run
    execute_op stop selected is_running service_name label attempt
answered = (_, refl)

execute_op_request-get_operation_reply_example :
    get_operation_reply "o1" stop_p1.1
    ≡ success 200 (record {
      request =
          prepared "o1" 10 (request_for "o1" op_stop "p1" [] bob (timeout_of (λ t. none) no_body));
      result = some answered.0;
      error = none;
    })
execute_op_request-get_operation_reply_example =
    execute_op_request-get_operation_reply calm resolve_shop true (λ t. none) "o1" 10 op_stop "p1"
      bob no_body idle answered.0 refl answered.1

abbrev both_served : List OperationRequest × Executor
both_served = worker_loop scan_heap calm resolve_shop true (queue_len idle.queue) idle

worker_loop-serves_example :
    Sorted both_served.0
    × Perm both_served.0 idle.queue.items
    × (both_served.1
        ≡ with_queue (emptied false) (run_all calm resolve_shop true both_served.0 idle))
worker_loop-serves_example = worker_loop-serves scan_heap calm resolve_shop true idle tt
