-- ===== src/Orchestrator/Executor/Progress.antt =====
-- The worker of internal/orchestrator/executor.go serves every request that waits.
use mathlib.Core.List.{Perm}
use compose_cockpit.Base.{
  ℕ, zero, suc, none, some, String, Bool, List, [], ◌∷◌, ◌≡◌, refl, sym, ap, ◌∙◌, length, arith,
  subst,
}
use compose_cockpit.Base.Results.{Result, ok, err}
use compose_cockpit.Domain.Errors.{GoError}
use compose_cockpit.Domain.Operation.{OperationRequest, OperationResult}
use compose_cockpit.Domain.Project.{Project}
use compose_cockpit.Docker.Client.{Daemon}
use compose_cockpit.Orchestrator.Heap.{Heap}
use compose_cockpit.Orchestrator.Lock.{Locks, Attempt, granted, busy, attempt}
use compose_cockpit.Orchestrator.Queue.{
  Queue, Dequeued, got, waits, done, dequeue, drain, queue_len,
}
use compose_cockpit.Orchestrator.Queue.Order.{
  Sorted, Serves, drain-Sorted, dequeue-Serves, drain-dequeue, Perm-length,
}
use compose_cockpit.Orchestrator.Record.{Executor, add_history}
use compose_cockpit.Orchestrator.Executor.{
  outcome, resolved, acquired, register, unregister, queued_record, run, execute_queued,
  after_dequeue, worker_pass, next_pass, worker_loop,
}

empty_of : (xs : List OperationRequest) → length xs ≡ 0 → xs ≡ []
empty_of [] e = refl
empty_of (x ∷ xs) e = absurd (omega arith)

abbrev pub with_queue : Queue → Executor → Executor
with_queue q x = record x { queue = q }

-- The queue when nothing waits.
abbrev pub emptied : Bool → Queue
emptied closed = record { items = []; closed = closed }

-- What is kept of a run: its record, with the result or the error that it answered.
abbrev pub kept_run : OperationRequest → Result GoError OperationResult × Executor → Executor
kept_run req (ok r, y) = record y {
  history = add_history (record { request = req; result = some r; error = none }) y.history;
}
kept_run req (err e, y) = record y {
  history = add_history (record { request = req; result = none; error = some e }) y.history;
}

-- The requests are run one after the other.
abbrev pub run_all :
    Daemon → (String → Result GoError Project) → Bool → List OperationRequest → Executor → Executor
run_all d resolve auditor [] x = x
run_all d resolve auditor (req ∷ rs) x =
    run_all d resolve auditor rs (kept_run req (run d resolve auditor req x))

abbrev answer_with :
    Queue → Result GoError OperationResult × Executor → Result GoError OperationResult × Executor
answer_with q (r, x) = (r, with_queue q x)

-- A run does not look at the queue, and leaves it alone.
module _ (d : Daemon) (resolve : String → Result GoError Project) (auditor : Bool) (q : Queue) where
  outcome-with_queue :
      (req : OperationRequest) (r : Result GoError OperationResult) (x : Executor)
      → outcome auditor req r (with_queue q x) ≡ answer_with q (outcome auditor req r x)
  unfolding outcome
  outcome-with_queue req (ok r) x = refl
  outcome-with_queue req (err e) x = refl

  resolved-with_queue :
      (req : OperationRequest) (p : Result GoError Project) (x : Executor)
      → resolved d resolve auditor req p (with_queue q x)
        ≡ answer_with q (resolved d resolve auditor req p x)
  unfolding resolved
  resolved-with_queue req (ok p) x = outcome-with_queue req _ _
  resolved-with_queue req (err e) x = refl

  acquired-with_queue :
      (req : OperationRequest) (a : Attempt × Locks) (x : Executor)
      → acquired d resolve auditor req a (with_queue q x)
        ≡ answer_with q (acquired d resolve auditor req a x)
  unfolding acquired register unregister
  acquired-with_queue req (granted, locks) x =
      ap (λ r. (r.0, unregister req r.1))
        (resolved-with_queue req (resolve req.scope.project_id) (register req locks x))
  acquired-with_queue req (busy holder, locks) x = refl

  kept_run-with_queue :
      (req : OperationRequest) (t : Result GoError OperationResult × Executor)
      → kept_run req (answer_with q t) ≡ with_queue q (kept_run req t)
  kept_run-with_queue req (ok r, y) = refl
  kept_run-with_queue req (err e, y) = refl

  run-with_queue :
      (req : OperationRequest) (x : Executor)
      → kept_run req (run d resolve auditor req (with_queue q x))
        ≡ with_queue q (kept_run req (run d resolve auditor req x))
  unfolding run
  run-with_queue req x =
      ap (kept_run req) (acquired-with_queue req (attempt req.scope.project_id req.id x.locks) x)
      ∙ kept_run-with_queue req (run d resolve auditor req x)

  run_all-with_queue :
      (rs : List OperationRequest) (x : Executor)
      → run_all d resolve auditor rs (with_queue q x)
        ≡ with_queue q (run_all d resolve auditor rs x)
  run_all-with_queue [] x = refl
  run_all-with_queue (req ∷ rs) x =
      ap (run_all d resolve auditor rs) (run-with_queue req x) ∙ run_all-with_queue rs _

  execute_queued-kept_run :
      (req : OperationRequest) (x : Executor)
      → execute_queued d resolve auditor req (with_queue q x)
        ≡ with_queue q (kept_run req (run d resolve auditor req x))
  unfolding execute_queued queued_record
  execute_queued-kept_run req x =
      recorded (run d resolve auditor req (with_queue q x)) ∙ run-with_queue req x
    where
      recorded :
          (t : Result GoError OperationResult × Executor)
          → record t.1 {
            history = add_history (queued_record d resolve auditor req t.0) t.1.history;
          }
            ≡ kept_run req t
      recorded (ok r, y) = refl
      recorded (err e, y) = refl

module _ (heap : Heap) (d : Daemon) (resolve : String → Result GoError Project)
    (auditor : Bool) where
  abbrev Served : ℕ → Executor → Type 0
  Served n x =
      ((worker_loop heap d resolve auditor n x).0 ≡ drain heap n x.queue)
      × ((worker_loop heap d resolve auditor n x).1
          ≡ with_queue (emptied x.queue.closed)
              (run_all d resolve auditor (drain heap n x.queue) x))

  worker_loop-drain :
      (n : ℕ) (x : Executor) → heap.IsHeap x.queue.items → length x.queue.items ≡ n → Served n x
  unfolding worker_loop next_pass worker_pass after_dequeue drain
  worker_loop-drain zero x h l = (
    refl,
    ap (λ xs. with_queue (record { items = xs; closed = x.queue.closed }) x)
        (empty_of x.queue.items l),
  )
  worker_loop-drain (suc n) x h l =
      served (dequeue heap x.queue) refl (dequeue-Serves heap x.queue h) (worker_loop-drain n)
    where
      served :
          (t : Dequeued × Queue)
          → dequeue heap x.queue ≡ t
          → Serves heap x.queue t
          → ((y : Executor) → heap.IsHeap y.queue.items → length y.queue.items ≡ n → Served n y)
          → Served (suc n) x
      served (waits, q) e (none_left, open_or_closed, s) next =
          absurd (omega (arith, ap length none_left))
      served (done, q) e (none_left, open_or_closed, s) next =
          absurd (omega (arith, ap length none_left))
      served (got req, q) e (least, all, h', c) next =
          let z = kept_run req (run d resolve auditor req x) in
          let ran = execute_queued-kept_run d resolve auditor q req x in
          let (same_requests, final) = next (with_queue q z) h' (omega (arith, Perm-length all)) in
          rw (drain-dequeue heap n x.queue, e, worker_loop, ran)
            (
              ap (◌∷◌ req) same_requests,
              final
                  ∙ ap (with_queue (emptied q.closed))
                      (run_all-with_queue d resolve auditor q (drain heap n q) z)
                  ∙ ap (λ b. with_queue (emptied b) (run_all d resolve auditor (drain heap n q) z))
                      c,
            )

  -- On a queue whose items are a heap, as many passes of the worker as requests wait, without new ones in
  -- between, run them all: each of them once, in the order of their priorities and then of their times
  -- of creation. The executor is then what it is after these runs, one after the other, each with its
  -- record in the history, and nothing waits.
  pub worker_loop-serves :
      (x : Executor)
      → heap.IsHeap x.queue.items
      → let served = worker_loop heap d resolve auditor (queue_len x.queue) x in
        Sorted served.0
        × Perm served.0 x.queue.items
        × (served.1 ≡ with_queue (emptied x.queue.closed) (run_all d resolve auditor served.0 x))
  unfolding queue_len
  worker_loop-serves x h =
      let (requests, final) = worker_loop-drain (queue_len x.queue) x h refl in
      let (sorted, all) = drain-Sorted heap x.queue h in
      (
        subst Sorted (sym requests) sorted,
        subst (λ rs. Perm rs x.queue.items) (sym requests) all,
        final
            ∙ ap (λ rs. with_queue (emptied x.queue.closed) (run_all d resolve auditor rs x))
                (sym requests),
      )
