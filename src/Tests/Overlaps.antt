-- ===== src/Tests/Overlaps.antt =====
-- Two operations of one project at the same time: one runs, and the other waits for its lock.
use compose_cockpit.Base.{
  String, none, some, [], ◌∷◌, ◌≡◌, ◌≢◌, refl, ap, inl, inr, In, sym, ◌∙◌, arith, eq_iff,
}
use compose_cockpit.Domain.Operation.{OperationRequest}
use compose_cockpit.Orchestrator.Lock.{attempt}
use compose_cockpit.Orchestrator.Queue.{remove_and_return}
use compose_cockpit.Orchestrator.Executor.{cancel, operation_not_found, get_operation}
use compose_cockpit.Orchestrator.Executor.Interleaved.{
  System, called, took, registers, Reached, start, next, registered,
}
use compose_cockpit.Orchestrator.Executor.Interleaved.Registered.{
  Reached-one_running, waiting-cancel,
}
use compose_cockpit.Tests.Scan.{scan_heap}
use compose_cockpit.Tests.Operations.{request_of, idle}

abbrev first : OperationRequest
first = request_of "o3" 50 30

abbrev second : OperationRequest
second = request_of "o4" 50 40

abbrev overlap : System
overlap = record {
  shared = record idle {
    locks = ("p1", "o3") ∷ [];
    running = ("o3", first) ∷ [];
    cancel_fns = ("o3", "o3") ∷ [];
  };
  waiting = second ∷ [];
  holding = (first, registered) ∷ [];
}

overlaps : Reached idle overlap
unfolding attempt
overlaps =
    next
      (next (next (next start (called first)) (took [] [] first refl refl))
        (registers [] [] first refl))
      (called second)

Reached-one_running_example : (◌≡◌ {A = String} "o3" "o3") × (first ≡ first)
Reached-one_running_example =
    Reached-one_running "o3" "o3" first first (refl, refl, refl) overlaps refl refl refl

-- The run that holds the lock has another identifier.
others : (r : OperationRequest) → In (r, registered) overlap.holding → r.id ≢ "o4"
others r (inl f) e = let g = sym (ap (λ t. t.0.id) f) ∙ e in ground (arith, eq_iff "o3" "o4")
others r (inr m) e = m

waiting-cancel_example :
    (get_operation "o4" overlap.shared ≡ none)
    × ((cancel scan_heap "o4" overlap.shared).0 ≡ some operation_not_found)
unfolding remove_and_return
waiting-cancel_example =
    waiting-cancel scan_heap second (refl, refl, refl) overlaps (inl refl) others tt refl
