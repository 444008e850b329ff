-- ===== src/Orchestrator/Executor/Cancels.antt =====
-- Executor.Cancel and Executor.Submit of internal/orchestrator/executor.go.
use mathlib.Core.HLevel.{⊥_prop}
use mathlib.Core.List.{Mem, Perm, mem-cons_self, mem-cons, not-mem-nil}
use mathlib.Core.Logic.Or
use mathlib.Core.List.Perm
use compose_cockpit.Base.{
  ℕ, String, Option, none, some, List, [], ◌∷◌, ◌≡◌, ◌≢◌, refl, ap, sym, ◌∙◌, All, inl, inr, ◌⊎◌,
}
use compose_cockpit.Base.Dict.{lookup}
use compose_cockpit.Domain.Errors.{AppError}
use compose_cockpit.Domain.Operation.{OperationRequest}
use compose_cockpit.Orchestrator.Heap.{Heap}
use compose_cockpit.Orchestrator.Queue.{Queue, enqueue, remove_and_return}
use compose_cockpit.Orchestrator.Queue.Order.{
  Removes, remove_and_return-Removes, enqueue-perm, stamped-now,
}
use compose_cockpit.Orchestrator.Executor.{
  prepared, submit, cancelled_record, operation_not_found, cancel_queued, cancel,
}
use compose_cockpit.Orchestrator.Record.{Executor, add_history}

-- A request of the identifier stands in no list without such requests.
not_absent :
    (id : String) (a : OperationRequest) (xs : List OperationRequest)
    → All (λ r. r.id ≢ id) xs
    → a.id ≡ id
    → ¬ Mem a xs
not_absent id a [] h e m = not-mem-nil m
not_absent id a (x ∷ xs) (hx, h) e m =
    Or.elim ⊥_prop (mem-cons.0 m) (λ f. hx (sym (ap (λ r. r.id) f) ∙ e)) (not_absent id a xs h e)

module _ (heap : Heap) where
  -- What Cancel answers: it ends the context of a running operation, or it takes a waiting one out of
  -- the queue and records it as cancelled, or it finds neither and changes nothing.
  abbrev pub Cancels : String → Executor → Option AppError → Executor → Type 0
  Cancels id x answer y =
      ((op : String) × (lookup id x.cancel_fns ≡ some op)
        × (answer ≡ none)
        × (y ≡ record x { cancelled = op ∷ x.cancelled }))
      ⊎ ((lookup id x.cancel_fns ≡ none)
          × (req : OperationRequest) × (req.id ≡ id)
          × Perm (req ∷ y.queue.items) x.queue.items
          × (answer ≡ none)
          × (y ≡ record x {
            queue = y.queue;
            history = add_history (cancelled_record req id) x.history;
          }))
      ⊎ ((lookup id x.cancel_fns ≡ none)
          × All (λ r. r.id ≢ id) x.queue.items
          × (answer ≡ some operation_not_found)
          × (y ≡ x))

  queued-Cancels :
      (id : String) (x : Executor)
      → heap.IsHeap x.queue.items
      → lookup id x.cancel_fns ≡ none
      → Cancels id x (cancel_queued heap id x).0 (cancel_queued heap id x).1
  unfolding cancel_queued
  queued-Cancels id x h idle =
      answered (remove_and_return heap id x.queue) (remove_and_return-Removes heap id x.queue h)
    where
      answered :
          (found : Option OperationRequest × Queue)
          → Removes heap id x.queue found
          → let c : Option AppError × Executor = elim found.0 [
            | none ↦ (some operation_not_found, record x { queue = found.1 })
            | some req ↦ (
              none,
              record x {
                queue = found.1;
                history = add_history (cancelled_record req id) x.history;
              },
            )
          ] in
            Cancels id x c.0 c.1
      answered (none, q) (same_queue, absent) =
          inr (inr (idle, absent, refl, ap (λ z. record x { queue = z }) same_queue))
      answered (some req, q) (named, all, kept, closed) =
          inr (inl (idle, req, named, all, refl, refl))

  -- Cancel ends the context of a running operation, or it takes a waiting one out of the queue and
  -- records it as cancelled, or it finds neither, answers with the error and changes nothing.
  cancel-Cancels :
      (id : String) (x : Executor)
      → heap.IsHeap x.queue.items
      → Cancels id x (cancel heap id x).0 (cancel heap id x).1
  unfolding cancel
  cancel-Cancels id x h = looked (lookup id x.cancel_fns) refl
    where
      looked :
          (l : Option String)
          → lookup id x.cancel_fns ≡ l
          → let c : Option AppError × Executor = elim l [
            | none ↦ cancel_queued heap id x
            | some op ↦ (none, record x { cancelled = op ∷ x.cancelled })
          ] in
            Cancels id x c.0 c.1
      looked (some op) e = inl (op, e, refl, refl)
      looked none e = queued-Cancels id x h e

  -- An operation that was submitted and is not running yet can be cancelled: Cancel finds a request of
  -- its identifier in the queue, takes only that one out and answers without an error.
  pub cancel-submit :
      (uuid : String) (now : ℕ) (req : OperationRequest) (x : Executor)
      → heap.IsHeap x.queue.items
      → lookup (prepared uuid now req).id x.cancel_fns ≡ none
      → let s = submit heap uuid now req x in
        let c = cancel heap s.0 s.1 in
        (c.0 ≡ none)
        × (taken : OperationRequest) × (taken.id ≡ s.0)
        × Perm (taken ∷ c.1.queue.items) (prepared uuid now req ∷ x.queue.items)
        × (c.1.history ≡ add_history (cancelled_record taken s.0) x.history)
  unfolding submit prepared
  cancel-submit uuid now req x h idle =
      by_cases (cancel heap r.id x') (cancel-Cancels r.id x' queued.0)
    where
      r : OperationRequest
      r = prepared uuid now req

      x' : Executor
      x' = record x { queue = enqueue heap now r x.queue }

      queued :
          heap.IsHeap (enqueue heap now r x.queue).items
          × Perm (enqueue heap now r x.queue).items (r ∷ x.queue.items)
      queued =
          let e = enqueue-perm heap now r x.queue h in (e.0, rw (stamped-now now r refl) at e.1)

      by_cases :
          (c : Option AppError × Executor)
          → Cancels r.id x' c.0 c.1
          → (c.0 ≡ none)
            × (taken : OperationRequest) × (taken.id ≡ r.id)
            × Perm (taken ∷ c.1.queue.items) (r ∷ x.queue.items)
            × (c.1.history ≡ add_history (cancelled_record taken r.id) x.history)
      by_cases (answer, y) (inl (op, runs, fine, changed)) = absurd cc
      by_cases (answer, y) (inr (inl (not_running, taken, named, all, fine, changed))) =
          (fine, taken, named, Perm.trans all queued.1, ap (λ z. z.history) changed)
      by_cases (answer, y) (inr (inr (not_running, absent, failed, same))) =
          absurd (not_absent r.id r _ absent refl ((Perm.mem_iff queued.1).1 mem-cons_self))
