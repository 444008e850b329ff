-- ===== src/Orchestrator/Queue.antt =====
-- internal/orchestrator/queue.go: PriorityQueue over the heap. Each operation is what the code does
-- under the queue's mutex.
pub mod Order
use compose_cockpit.Base.{
  ℕ, zero, suc, String, Bool, true, false, Option, none, some, List, [], ◌∷◌, ◌++◌, ◌≡◌, refl, same,
  ◌==◌, length, if◌then◌else◌,
}
use compose_cockpit.Domain.Operation.{OperationRequest}
use compose_cockpit.Orchestrator.Heap.{Heap}

pub record Queue : Type 0 where
  pub items : List OperationRequest
  pub closed : Bool

-- NewPriorityQueue
abbrev pub new_queue : Queue
new_queue = record { items = []; closed = false }

-- What Dequeue does: it waits, it tells that the queue is closed, or it gives a request.
pub data Dequeued : Type 0 where
  waits done : Dequeued
  got : OperationRequest → Dequeued

-- A request without a creation time gets the time of the call.
unfoldable pub stamped : ℕ → OperationRequest → OperationRequest
stamped now r = if r.created_at == 0 then record r { created_at = now } else r

module _ (heap : Heap) where
  -- Enqueue; `now` is the time.
  unfoldable pub enqueue : ℕ → OperationRequest → Queue → Queue
  unfolding stamped
  enqueue now r q = record q { items = heap.push (stamped now r) q.items }

  -- TryDequeue
  take : List OperationRequest → Bool → Option OperationRequest × Queue
  take [] closed = (none, record { items = []; closed = closed })
  take (x ∷ xs) closed =
      let p = heap.pop x xs in (some p.0, record { items = p.1; closed = closed })

  pub try_dequeue : Queue → Option OperationRequest × Queue
  unfolding take
  try_dequeue q = take q.items q.closed

  -- One pass of Dequeue: it waits while the queue is empty and open.
  answer : Bool → Option OperationRequest → Dequeued
  answer closed (some r) = got r
  answer true none = done
  answer false none = waits

  unfoldable pub dequeue : Queue → Dequeued × Queue
  unfolding try_dequeue answer
  dequeue q = let t = try_dequeue q in (answer q.closed t.0, t.1)

  -- The loop of RemoveAndReturn; `before` is what it has passed.
  find_remove :
      String
      → List OperationRequest
      → List OperationRequest
      → Option (OperationRequest × List OperationRequest)
  find_remove id before [] = none
  find_remove id before (r ∷ after) =
      let later = find_remove id (before ++ r ∷ []) after in
      if same r.id id then some (r, heap.remove before r after) else later

  unfoldable pub remove_and_return : String → Queue → Option OperationRequest × Queue
  unfolding find_remove
  remove_and_return id q = elim (find_remove id [] q.items) [
    | none ↦ (none, q)
    | some found ↦ (some found.0, record q { items = found.1 })
  ]

  -- Remove
  pub remove : String → Queue → Bool × Queue
  unfolding remove_and_return
  remove id q = let t = remove_and_return id q in (elim t.0 [ none ↦ false | some r ↦ true ], t.1)

  -- TryDequeue until nothing is left, at most as often as the given number.
  unfoldable pub drain : ℕ → Queue → List OperationRequest
  unfolding try_dequeue
  drain zero q = []
  drain (suc n) q =
      let t = try_dequeue q in let rest = drain n t.1 in elim t.0 [ none ↦ [] | some r ↦ r ∷ rest ]

-- Len and Close
unfoldable pub queue_len : Queue → ℕ
queue_len q = length q.items

pub close : Queue → Queue
close q = record q { closed = true }
