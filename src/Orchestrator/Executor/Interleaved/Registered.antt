-- ===== src/Orchestrator/Executor/Interleaved/Registered.antt =====
-- What the executor of internal/orchestrator/executor.go knows of runs at the same time.
use mathlib.Core.Option.{some-injective}
use compose_cockpit.Base.{
  Option-cases, String, none, some, List, [], ◌∷◌, ◌++◌, ◌≡◌, ◌≢◌, refl, sym, ap, subst, ◌∙◌, ◌⊎◌,
  inl, inr, In, same, Bool-cases, eq_of_same, arith, eq_iff, All, same-false,
}
use compose_cockpit.Base.Dict.{lookup, lookup-insert, lookup-delete}
use compose_cockpit.Domain.Operation.{OperationRequest}
use compose_cockpit.Orchestrator.Exclusion.{In-middle, Reached-exclusive}
use compose_cockpit.Orchestrator.Executor.Interleaved.{
  Phase, locked, registered, leaving, System, called, took, gave_up, registers, leaves, releases,
  worked, Reached, start, next, Idle, registered_in, removed_from, held_of, Reached-locker,
}
use compose_cockpit.Orchestrator.Executor.{cancel, operation_not_found, get_operation, newest}
use compose_cockpit.Orchestrator.Heap.{Heap}
use compose_cockpit.Orchestrator.Queue.{remove_and_return}
use compose_cockpit.Orchestrator.Record.{Executor, OperationRecord}

abbrev Runs : Type 0
Runs = List (OperationRequest × Phase)

-- Every registration is that of a run that holds its lock, and there is a cancel function only with a
-- registration.
record Known (x : Executor) (holding : Runs) : Type 0 where
  running :
      (i : String) (r : OperationRequest)
      → lookup i x.running ≡ some r
      → (r.id ≡ i) × In (r, registered) holding
  cancels : (i : String) → lookup i x.running ≡ none → lookup i x.cancel_fns ≡ none

-- Another phase of one run leaves the other runs alone.
others :
    (before after : Runs) (req r : OperationRequest) (p q : Phase)
    → In (r, registered) (before ++ (req, p) ∷ after)
    → (◌≡◌ {A = OperationRequest × Phase} (r, registered) (req, p))
      ⊎ In (r, registered) (before ++ (req, q) ∷ after)
others before after req r p q m = elim ((In-middle (r, registered) before (req, p) after).0 m) [
  | inl e ↦ inl e
  | inr n ↦ inr ((In-middle (r, registered) before (req, q) after).1 (inr n))
]

module _ (x : Executor) (before after : Runs) (req : OperationRequest) where
  registers-Known :
      Known x (before ++ (req, locked) ∷ after)
      → Known (registered_in req x) (before ++ (req, registered) ∷ after)
  registers-Known k = record {
    running = λ i r. elim (Bool-cases (same req.id i)) [
      | inl e ↦
          rw (lookup-insert req.id i req x.running, e)
            (λ h.
              let f = some-injective req r h in
              (
                subst (λ q. q.id ≡ i) f (eq_of_same req.id i e),
                subst (λ q. In (q, registered) (before ++ (req, registered) ∷ after)) f
                    ((In-middle (req, registered) before (req, registered) after).1 (inl refl)),
              ))
      | inr e ↦
          rw (lookup-insert req.id i req x.running, e)
            (λ h.
              let (f, m) = k.running i r h in
              (
                f,
                elim (others before after req r locked registered m) [
                  | inl g ↦ let p = ap (λ t. t.1) g in absurd (cc)
                  | inr n ↦ n
                ],
              ))
    ];
    cancels = λ i. elim (Bool-cases (same req.id i)) [
      | inl e ↦ rw (lookup-insert req.id i req x.running, e) (λ h. absurd (cc))
      | inr e ↦
          rw (lookup-insert req.id i req x.running, lookup-insert req.id i req.id x.cancel_fns, e)
            (k.cancels i)
    ];
  }

  leaves-Known :
      Known x (before ++ (req, registered) ∷ after)
      → Known (removed_from req x) (before ++ (req, leaving) ∷ after)
  leaves-Known k = record {
    running = λ i r. elim (Bool-cases (same req.id i)) [
      | inl e ↦ rw (lookup-delete req.id i x.running, e) (λ h. absurd (cc))
      | inr e ↦
          rw (lookup-delete req.id i x.running, e)
            (λ h.
              let (f, m) = k.running i r h in
              (
                f,
                elim (others before after req r registered leaving m) [
                  | inl g ↦
                      let t = (eq_iff req.id i).1 (sym (ap (λ t. t.0.id) g) ∙ f) in absurd (cc)
                  | inr n ↦ n
                ],
              ))
    ];
    cancels = λ i. elim (Bool-cases (same req.id i)) [
      | inl e ↦ rw (lookup-delete req.id i x.cancel_fns, e) (λ h. refl)
      | inr e ↦
          rw (lookup-delete req.id i x.running, lookup-delete req.id i x.cancel_fns, e)
            (k.cancels i)
    ];
  }

  releases-Known :
      (y : Executor)
      → y.running ≡ x.running
      → y.cancel_fns ≡ x.cancel_fns
      → Known x (before ++ (req, leaving) ∷ after)
      → Known y (before ++ after)
  releases-Known y e f k = record {
    running = λ i r h.
        let (g, m) = k.running i r (sym (ap (lookup i) e) ∙ h) in
        (
          g,
          elim ((In-middle (r, registered) before (req, leaving) after).0 m) [
            | inl c ↦ let p = ap (λ t. t.1) c in absurd (cc)
            | inr n ↦ n
          ],
        );
    cancels = λ i h. ap (lookup i) f ∙ k.cancels i (sym (ap (lookup i) e) ∙ h);
  }

Reached-Known : {x : Executor} {s : System} → Idle x → Reached x s → Known s.shared s.holding
Reached-Known {x} idle start = record {
  running = λ i r h. let e = sym (ap (lookup i) (idle.1)) ∙ h in absurd (cc);
  cancels = λ i h. ap (lookup i) idle.2;
}
Reached-Known idle (next r (called req)) = Reached-Known idle r
Reached-Known idle (next r (took before after req e g)) =
    let k = Reached-Known idle r in
    record { running = λ i q h. let (f, m) = k.running i q h in (f, inr m); cancels = k.cancels }
Reached-Known idle (next r (gave_up before after req e)) = Reached-Known idle r
Reached-Known idle (next {s} r (registers before after req e)) =
    registers-Known s.shared before after req (subst (Known s.shared) e (Reached-Known idle r))
Reached-Known idle (next {s} r (leaves before after req e)) =
    leaves-Known s.shared before after req (subst (Known s.shared) e (Reached-Known idle r))
Reached-Known idle (next {s} r (releases before after req e)) =
    releases-Known s.shared before after req _ refl refl
      (subst (Known s.shared) e (Reached-Known idle r))
Reached-Known idle (next {s} r (worked w)) =
    let k = Reached-Known idle r in
    record {
      running = λ i q h. k.running i q (sym (ap (lookup i) w.running) ∙ h);
      cancels = λ i h. ap (lookup i) w.cancel_fns ∙ k.cancels i (sym (ap (lookup i) w.running) ∙ h);
    }

held_of-In :
    (req : OperationRequest) (p : Phase) (runs : Runs)
    → In (req, p) runs
    → In (req.scope.project_id, req.id) (held_of runs)
held_of-In req p ((q, z) ∷ runs) (inl e) = inl (ap (λ t. (t.0.scope.project_id, t.0.id)) e)
held_of-In req p ((q, z) ∷ runs) (inr m) = inr (held_of-In req p runs m)
held_of-In req p [] m = elim m [ ]

-- However the runs of several operations interleave on an executor that starts idle, two operations of
-- one project are never running at the same time: entries of the running ones for the same project
-- are the same entry.
pub Reached-one_running :
    {x : Executor} {s : System} (i j : String) (q r : OperationRequest)
    → Idle x
    → Reached x s
    → lookup i s.shared.running ≡ some q
    → lookup j s.shared.running ≡ some r
    → q.scope.project_id ≡ r.scope.project_id
    → (i ≡ j) × (q ≡ r)
Reached-one_running {x} {s} i j q r idle reached hq hr e =
    let k = Reached-Known idle reached in
    let (fq, mq) = k.running i q hq in
    let (fr, mr) = k.running j r hr in
    let same_id =
      Reached-exclusive r.scope.project_id q.id r.id (Reached-locker idle reached)
        (subst (λ p. In (p, q.id) (held_of s.holding)) e (held_of-In q registered s.holding mq))
        (held_of-In r registered s.holding mr) in
    let f : i ≡ j = sym fq ∙ same_id ∙ fr in
    (f, some-injective q r (sym hq ∙ ap (λ z. lookup z s.shared.running) f ∙ hr))

cancel-unknown :
    (heap : Heap) (id : String) (x : Executor)
    → lookup id x.cancel_fns ≡ none
    → (remove_and_return heap id x.queue).0 ≡ none
    → (cancel heap id x).0 ≡ some operation_not_found
unfolding cancel
cancel-unknown heap id x h gone = ground arith

-- GetOperation of an operation that is not running finds nothing where the history has no record of it.
newest-absent :
    (id : String) (history : List OperationRecord)
    → All (λ r. r.request.id ≢ id) history
    → newest id history ≡ none
unfolding newest
newest-absent id [] h = refl
newest-absent id (r ∷ rs) (differ, h) =
    rw (newest-absent id rs h, same-false r.request.id id differ) refl

get_operation-unknown :
    (id : String) (x : Executor)
    → lookup id x.running ≡ none
    → All (λ r. r.request.id ≢ id) x.history
    → get_operation id x ≡ none
unfolding get_operation
get_operation-unknown id x h absent = rw (get_operation, h) (newest-absent id x.history absent)

-- An operation whose run waits for the lock of its project, where no run with its identifier is
-- registered, the history has no record of it and the queue has no request of it, can be neither found nor
-- cancelled: GetOperation finds nothing, and Cancel answers that there is no such operation.
pub waiting-cancel :
    {x : Executor} {s : System} (heap : Heap) (req : OperationRequest)
    → Idle x
    → Reached x s
    → In req s.waiting
    → ((r : OperationRequest) → In (r, registered) s.holding → r.id ≢ req.id)
    → All (λ r. r.request.id ≢ req.id) s.shared.history
    → (remove_and_return heap req.id s.shared.queue).0 ≡ none
    → (get_operation req.id s.shared ≡ none)
      × ((cancel heap req.id s.shared).0 ≡ some operation_not_found)
waiting-cancel {x} {s} heap req idle reached waits alone absent gone =
    let k = Reached-Known idle reached in
    let free : lookup req.id s.shared.running ≡ none =
      elim (Option-cases (lookup req.id s.shared.running)) [
        | inl e ↦ e
        | inr (r, e) ↦ let (f, m) = k.running req.id r e in absurd (alone r m f)
      ] in
    (
      get_operation-unknown req.id s.shared free absent,
      cancel-unknown heap req.id s.shared (k.cancels req.id free) gone,
    )
