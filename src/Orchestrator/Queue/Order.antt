-- ===== src/Orchestrator/Queue/Order.antt =====
-- In which order the queue of internal/orchestrator/queue.go serves, and that it loses nothing.
use mathlib.Core.List.{Mem, Perm, Permᴰ, append_assoc, mem-cons_of_mem}
use mathlib.Core.List.Perm
use mathlib.Core.Logic.{∥∥₁_elim}
use native.Mathlib.Nat.{ℕ_set}
use compose_cockpit.Base.{
  ℕ, zero, suc, String, Bool, true, false, Option, none, some, List, [], ◌∷◌, ◌++◌, ◌≡◌, ◌≢◌, refl,
  sym, ap, subst, ◌∙◌, same, ◌==◌, length, arith, All, eq_of_same, Bool-cases, inl, inr, eq_iff,
  ◌≤◌, ◌<◌, ◌⊎◌,
}
use compose_cockpit.Domain.Operation.{OperationRequest}
use compose_cockpit.Orchestrator.Heap.{Heap, less}
use compose_cockpit.Orchestrator.Queue.{
  Queue, stamped, Dequeued, got, waits, done, enqueue, take, try_dequeue, answer, dequeue,
  find_remove, remove_and_return, drain, queue_len,
}

Permᴰ-length : {xs ys : List OperationRequest} → Permᴰ xs ys → length xs ≡ length ys
Permᴰ-length Permᴰ.nil = refl
Permᴰ-length (Permᴰ.cons e d) = ap suc (Permᴰ-length d)
Permᴰ-length (Permᴰ.swap e f) = refl
Permᴰ-length (Permᴰ.trans d e) = Permᴰ-length d ∙ Permᴰ-length e

pub Perm-length : {xs ys : List OperationRequest} → Perm xs ys → length xs ≡ length ys
Perm-length {xs} {ys} p = ∥∥₁_elim p (ℕ_set (length xs) (length ys)) Permᴰ-length

-- The order of service: the request of the higher priority is first, and of two of one priority the one
-- that was not created later.
abbrev pub Before : OperationRequest → OperationRequest → Type 0
Before r y = (y.priority < r.priority) ⊎ ((y.priority ≡ r.priority) × (r.created_at ≤ y.created_at))

Before-less : (r y : OperationRequest) → less y r ≡ false → Before r y
unfolding less
Before-less r y h = ground arith

-- Each request comes before all that stand behind it.
abbrev pub Sorted : List OperationRequest → Type 0
Sorted [] = Unit
Sorted (r ∷ rs) = ((y : OperationRequest) → Mem y rs → Before r y) × Sorted rs

pub stamped-now : (now : ℕ) (r : OperationRequest) → r.created_at ≡ now → stamped now r ≡ r
unfolding stamped
stamped-now now r e = elim (Bool-cases (r.created_at == 0)) [
  | inl z ↦ rw (z, stamped) (ap (λ t. record r { created_at = t }) (sym e))
  | inr n ↦ rw (n, stamped) refl
]

module _ (heap : Heap) where
  drain-items :
      (n : ℕ) (xs : List OperationRequest) (closed : Bool)
      → length xs ≡ n
      → heap.IsHeap xs
      → Sorted (drain heap n (record { items = xs; closed = closed }))
        × Perm (drain heap n (record { items = xs; closed = closed })) xs
  unfolding drain try_dequeue take
  drain-items zero [] closed e h = (tt, Perm.nil)
  drain-items zero (x ∷ xs) closed e h = absurd (omega arith)
  drain-items (suc n) [] closed e h = absurd (omega arith)
  drain-items (suc n) (x ∷ xs) closed e h =
      let p = heap.pop-perm x xs in
      let (sorted, all) =
        drain-items n (heap.pop x xs).1 closed (omega (arith, Perm-length p))
          (heap.pop-IsHeap x xs h) in
      (
        (
          (λ y m. Before-less (heap.pop x xs).0 y (
              heap.pop-least x xs h y
                ((Perm.mem_iff p).0 (mem-cons_of_mem _ ((Perm.mem_iff all).0 m))))),
          sorted,
        ),
        Perm.trans (Perm.cons _ all) p,
      )

  -- Dequeueing a queue whose items are a heap until it is empty gives every request of it once; each
  -- one comes before a later one of the list by a higher priority, or by the same priority and a time of
  -- creation that is not later.
  pub drain-Sorted :
      (q : Queue)
      → heap.IsHeap q.items
      → Sorted (drain heap (queue_len q) q) × Perm (drain heap (queue_len q) q) q.items
  unfolding queue_len
  drain-Sorted q h = drain-items _ q.items q.closed refl h

  -- Enqueue adds the request, stamped with the time of the call if it had none, and keeps the others
  -- and the invariant of the heap.
  pub enqueue-perm :
      (now : ℕ) (r : OperationRequest) (q : Queue)
      → heap.IsHeap q.items
      → heap.IsHeap (enqueue heap now r q).items
        × Perm (enqueue heap now r q).items (stamped now r ∷ q.items)
  unfolding enqueue
  enqueue-perm now r q h =
      (heap.push-IsHeap (stamped now r) q.items h, heap.push-perm (stamped now r) q.items)

  -- What Dequeue answers for a queue whose items are a heap: it waits exactly at an empty open queue, and
  -- otherwise gives a request that no other one precedes, and keeps the rest.
  abbrev pub Serves : Queue → Dequeued × Queue → Type 0
  Serves q (waits, q') = (q.items ≡ []) × (q.closed ≡ false) × (q' ≡ q)
  Serves q (done, q') = (q.items ≡ []) × (q.closed ≡ true) × (q' ≡ q)
  Serves q (got r, q') =
      ((y : OperationRequest) → Mem y q.items → Before r y)
      × Perm (r ∷ q'.items) q.items
      × heap.IsHeap q'.items
      × (q'.closed ≡ q.closed)

  Serves-items :
      (xs : List OperationRequest) (closed : Bool)
      → heap.IsHeap xs
      → Serves
          (record { items = xs; closed = closed })
          (dequeue heap (record { items = xs; closed = closed }))
  unfolding dequeue try_dequeue take answer
  Serves-items [] true h = (refl, refl, refl)
  Serves-items [] false h = (refl, refl, refl)
  Serves-items (x ∷ xs) closed h = (
    (λ y m. Before-less (heap.pop x xs).0 y (heap.pop-least x xs h y m)),
    heap.pop-perm x xs,
    heap.pop-IsHeap x xs h,
    refl,
  )

  -- Dequeue waits exactly at an empty open queue, says that it is done exactly at an empty closed one, and
  -- otherwise gives a request that no other one precedes, and keeps the rest of the queue.
  pub dequeue-Serves : (q : Queue) → heap.IsHeap q.items → Serves q (dequeue heap q)
  dequeue-Serves q h = Serves-items q.items q.closed h

  abbrev pub then_drain : ℕ → Dequeued × Queue → List OperationRequest
  then_drain n (got r, q) = r ∷ drain heap n q
  then_drain n (waits, q) = []
  then_drain n (done, q) = []

  -- Draining is dequeueing again and again.
  pub drain-dequeue : (n : ℕ) (q : Queue) → drain heap (suc n) q ≡ then_drain n (dequeue heap q)
  unfolding drain dequeue try_dequeue take answer
  drain-dequeue n q = items q.items q.closed
    where
      items :
          (xs : List OperationRequest) (closed : Bool)
          → drain heap (suc n) (record { items = xs; closed = closed })
            ≡ then_drain n (dequeue heap (record { items = xs; closed = closed }))
      items [] true = refl
      items [] false = refl
      items (x ∷ xs) closed = refl

  -- What RemoveAndReturn answers.
  abbrev pub Removes : String → Queue → Option OperationRequest × Queue → Type 0
  Removes id q (none, q') = (q' ≡ q) × All (λ r. r.id ≢ id) q.items
  Removes id q (some r, q') =
      (r.id ≡ id) × Perm (r ∷ q'.items) q.items × heap.IsHeap q'.items × (q'.closed ≡ q.closed)

  abbrev Finds :
      String
      → List OperationRequest
      → List OperationRequest
      → Option (OperationRequest × List OperationRequest)
      → Type 0
  Finds id before after none = All (λ r. r.id ≢ id) after
  Finds id before after (some (r, rest)) =
      (r.id ≡ id) × Perm (r ∷ rest) (before ++ after) × heap.IsHeap rest

  find_remove-Finds :
      (id : String) (before after : List OperationRequest)
      → heap.IsHeap (before ++ after)
      → Finds id before after (find_remove heap id before after)
  unfolding find_remove
  find_remove-Finds id before [] h = tt
  find_remove-Finds id before (r ∷ after) h =
      let shift = append_assoc before (r ∷ []) after in
      let later = find_remove-Finds id (before ++ r ∷ []) after (subst heap.IsHeap (sym shift) h) in
      elim (Bool-cases (same r.id id)) [
        | inl e ↦
            rw (e, find_remove)
              (
                eq_of_same r.id id e,
                heap.remove-perm before r after,
                heap.remove-IsHeap before r after h,
              )
        | inr e ↦ rw (e, find_remove) (passed e _ later)
      ]
    where
      passed :
          same r.id id ≡ false
          → (x : Option (OperationRequest × List OperationRequest))
          → Finds id (before ++ r ∷ []) after x
          → Finds id before (r ∷ after) x
      passed e none f = ((λ g. let k = (eq_iff r.id id).1 g in cc), f)
      passed e (some (s, rest)) (g, p, k) = (g, rw (append_assoc before (r ∷ []) after) at p, k)

  -- RemoveAndReturn takes a request with the identifier out of the queue and keeps all the others, or
  -- there is no such request and the queue is unchanged.
  pub remove_and_return-Removes :
      (id : String) (q : Queue) → heap.IsHeap q.items → Removes id q (remove_and_return heap id q)
  unfolding remove_and_return
  remove_and_return-Removes id q h = answered _ (find_remove-Finds id [] q.items h)
    where
      answered :
          (x : Option (OperationRequest × List OperationRequest))
          → Finds id [] q.items x
          → Removes id q (elim x [
            | none ↦ (none, q)
            | some found ↦ (some found.0, record q { items = found.1 })
          ])
      answered none f = (refl, f)
      answered (some (r, rest)) (e, p, k) = (e, p, k, refl)
