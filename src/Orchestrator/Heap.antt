-- ===== src/Orchestrator/Heap.antt =====
-- The interface between the queue of internal/orchestrator/queue.go and Go's container/heap: the
-- order that the queue gives (`Less`), and what the package documents of its operations on a slice
-- that satisfies the heap invariant.
use mathlib.Core.List.{Mem, Perm}
use compose_cockpit.Base.{Bool, false, List, [], ◌∷◌, ◌++◌, ◌≡◌, ltb, ◌==◌, if◌then◌else◌}
use compose_cockpit.Domain.Operation.{OperationRequest}

-- `Less`: a higher priority first, then the older request.
unfoldable pub less : OperationRequest → OperationRequest → Bool
less r s =
    if r.priority == s.priority then ltb r.created_at s.created_at else ltb s.priority r.priority

-- `pop` is given a slice that is not empty, as its head and tail, and gives the element that it takes
-- out and the slice that is left; `remove` takes out the element that stands after `before`.
pub record Heap : Type 1 where
  pub IsHeap : List OperationRequest → Type 0
  pub push : OperationRequest → List OperationRequest → List OperationRequest
  pub pop : OperationRequest → List OperationRequest → OperationRequest × List OperationRequest
  pub remove :
      List OperationRequest → OperationRequest → List OperationRequest → List OperationRequest
  pub nil-IsHeap : IsHeap []
  pub push-IsHeap :
      (r : OperationRequest) (xs : List OperationRequest) → IsHeap xs → IsHeap (push r xs)
  pub push-perm : (r : OperationRequest) (xs : List OperationRequest) → Perm (push r xs) (r ∷ xs)
  pub pop-IsHeap :
      (x : OperationRequest) (xs : List OperationRequest) → IsHeap (x ∷ xs) → IsHeap (pop x xs).1
  pub pop-perm :
      (x : OperationRequest) (xs : List OperationRequest)
      → Perm ((pop x xs).0 ∷ (pop x xs).1) (x ∷ xs)
  pub pop-least :
      (x : OperationRequest) (xs : List OperationRequest)
      → IsHeap (x ∷ xs)
      → (y : OperationRequest) → Mem y (x ∷ xs)
      → less y (pop x xs).0 ≡ false
  pub remove-IsHeap :
      (before : List OperationRequest) (r : OperationRequest) (after : List OperationRequest)
      → IsHeap (before ++ r ∷ after)
      → IsHeap (remove before r after)
  pub remove-perm :
      (before : List OperationRequest) (r : OperationRequest) (after : List OperationRequest)
      → Perm (r ∷ remove before r after) (before ++ r ∷ after)
