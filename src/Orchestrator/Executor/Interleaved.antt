-- ===== src/Orchestrator/Executor/Interleaved.antt =====
-- Interleavings of Executor.run of internal/orchestrator/executor.go: several operations at the same
-- time, each between two of its critical sections.
pub mod Registered
use compose_cockpit.Base.{
  String, Bool, true, false, Option, none, some, List, [], ◌∷◌, ◌++◌, ◌≡◌, ◌≢◌, refl, sym, ap,
  subst, ◌∙◌, ◌⊎◌, inl, inr, In, map, same, if◌then◌else◌, Bool-cases, same_self, eq_of_same, arith,
}
use compose_cockpit.Base.Dict.{Dict, lookup, insert, delete, lookup-insert, lookup-delete}
use compose_cockpit.Domain.Operation.{OperationRequest}
use compose_cockpit.Orchestrator.Exclusion as Exclusion
use compose_cockpit.Orchestrator.Heap.{Heap}
use compose_cockpit.Orchestrator.Lock.{Locks, granted, busy, attempt, release}
use compose_cockpit.Orchestrator.Record.{Executor}
use compose_cockpit.Orchestrator.Executor.{cancel, operation_not_found}
use compose_cockpit.Orchestrator.Executor.Runs.{Keeps}

-- How far a run is that holds its lock: before its registration, in its registration, or behind it.
pub data Phase : Type 0 where
  locked registered leaving : Phase

-- The executor, the requests whose runs wait for a lock, and those whose runs hold one.
pub record System : Type 0 where
  pub shared : Executor
  pub waiting : List OperationRequest
  pub holding : List (OperationRequest × Phase)

abbrev project_of : OperationRequest → String
project_of req = req.scope.project_id

-- e.running[req.ID] and e.cancelFns[req.ID] are set under one mutex.
abbrev pub registered_in : OperationRequest → Executor → Executor
registered_in req x = record x {
  running = insert req.id req x.running;
  cancel_fns = insert req.id req.id x.cancel_fns;
}

-- They are deleted under it by the deferred function.
abbrev pub removed_from : OperationRequest → Executor → Executor
removed_from req x = record x {
  running = delete req.id x.running;
  cancel_fns = delete req.id x.cancel_fns;
}

pub data Step (s : System) : System → Type 0 where
  -- Execute, or a worker with a request that it took, calls run.
  called : (req : OperationRequest) → Step s (record s { waiting = req ∷ s.waiting })
  -- Acquire takes the lock, waits on, or gives up when the context ends.
  took :
      (before after : List OperationRequest) (req : OperationRequest)
      → s.waiting ≡ before ++ req ∷ after
      → (attempt req.scope.project_id req.id s.shared.locks).0 ≡ granted
      → Step s (record {
        shared = record s.shared { locks = (attempt req.scope.project_id req.id s.shared.locks).1 };
        waiting = before ++ after;
        holding = (req, locked) ∷ s.holding;
      })
  gave_up :
      (before after : List OperationRequest) (req : OperationRequest)
      → s.waiting ≡ before ++ req ∷ after
      → Step s (record s { waiting = before ++ after })
  registers :
      (before after : List (OperationRequest × Phase)) (req : OperationRequest)
      → s.holding ≡ before ++ (req, locked) ∷ after
      → Step s (record s {
        shared = registered_in req s.shared;
        holding = before ++ (req, registered) ∷ after;
      })
  -- The deferred functions: first the registration goes, then the lock.
  leaves :
      (before after : List (OperationRequest × Phase)) (req : OperationRequest)
      → s.holding ≡ before ++ (req, registered) ∷ after
      → Step s (record s {
        shared = removed_from req s.shared;
        holding = before ++ (req, leaving) ∷ after;
      })
  releases :
      (before after : List (OperationRequest × Phase)) (req : OperationRequest)
      → s.holding ≡ before ++ (req, leaving) ∷ after
      → Step s (record s {
        shared = record s.shared { locks = release req.scope.project_id s.shared.locks };
        holding = before ++ after;
      })
  -- Calls of the daemon, the audit log, the history, the queue and Cancel.
  worked : {x : Executor} → Keeps s.shared x → Step s (record s { shared = x })

pub data Reached (x : Executor) : System → Type 0 where
  start : Reached x (record { shared = x; waiting = []; holding = [] })
  next : {s t : System} → Reached x s → Step s t → Reached x t

-- An executor on which nothing runs yet.
abbrev pub Idle : Executor → Type 0
Idle x = (x.locks ≡ []) × (x.running ≡ []) × (x.cancel_fns ≡ [])

-- The locks as the locker sees them.
abbrev pub held_of : List (OperationRequest × Phase) → List (String × String)
held_of [] = []
held_of ((req, p) ∷ rs) = (req.scope.project_id, req.id) ∷ held_of rs

abbrev pub locker : System → Exclusion.System
locker s = record { locks = s.shared.locks; held = held_of s.holding }

held_of-append :
    (xs ys : List (OperationRequest × Phase)) → held_of (xs ++ ys) ≡ held_of xs ++ held_of ys
held_of-append [] ys = refl
held_of-append ((req, p) ∷ xs) ys =
    ap (λ t. (req.scope.project_id, req.id) ∷ t) (held_of-append xs ys)

-- What the locker sees does not depend on the phase.
held_of-phase :
    (before after : List (OperationRequest × Phase)) (req : OperationRequest) (p q : Phase)
    → held_of (before ++ (req, p) ∷ after) ≡ held_of (before ++ (req, q) ∷ after)
held_of-phase before after req p q =
    held_of-append before ((req, p) ∷ after) ∙ sym (held_of-append before ((req, q) ∷ after))

same_view :
    (l l' : Locks) (h h' : List (String × String))
    → l ≡ l'
    → h ≡ h'
    → Exclusion.Reached (record { locks = l; held = h })
    → Exclusion.Reached (record { locks = l'; held = h' })
same_view l l' h h' e f r =
    subst (λ k. Exclusion.Reached (record { locks = k; held = h' })) e
      (subst (λ k. Exclusion.Reached (record { locks = l; held = k })) f r)

-- Every interleaving of runs is one of calls of the locker.
pub Reached-locker :
    {x : Executor} {s : System} → Idle x → Reached x s → Exclusion.Reached (locker s)
Reached-locker idle start = same_view _ _ _ _ (sym idle.0) refl Exclusion.start
Reached-locker idle (next r (called req)) = Reached-locker idle r
Reached-locker idle (next r (took before after req e g)) =
    Exclusion.next (Reached-locker idle r) (Exclusion.acquired _ req.scope.project_id req.id g)
Reached-locker idle (next r (gave_up before after req e)) = Reached-locker idle r
Reached-locker idle (next r (registers before after req e)) =
    same_view _ _ _ _ refl (ap held_of e ∙ held_of-phase before after req locked registered)
      (Reached-locker idle r)
Reached-locker idle (next r (leaves before after req e)) =
    same_view _ _ _ _ refl (ap held_of e ∙ held_of-phase before after req registered leaving)
      (Reached-locker idle r)
Reached-locker idle (next r (releases before after req e)) =
    same_view _ _ _ _ refl (sym (held_of-append before after)) (
      Exclusion.next
        (same_view _ _ _ _ refl (ap held_of e ∙ held_of-append before ((req, leaving) ∷ after))
          (Reached-locker idle r))
        (Exclusion.released _ (held_of before) (held_of after) req.scope.project_id req.id))
Reached-locker idle (next r (worked k)) =
    same_view _ _ _ _ (sym k.locks) refl (Reached-locker idle r)
