-- ===== src/Orchestrator/Lock.antt =====
-- internal/orchestrator/lock.go: inMemoryLocker. Each function is what the code does between locking
-- and unlocking the mutex; `locks` gives the holder of every locked project.
use compose_cockpit.Base.{
  String, Bool, true, false, Option, none, some, ◌≡◌, refl, arith, sym, ◌∙◌, same, same_self,
  eq_of_same, Bool-cases, inl, inr,
}
use compose_cockpit.Base.Dict.{Dict, lookup, insert, delete, lookup-insert, lookup-delete-insert}
use compose_cockpit.Domain.Errors.{Code, AppError, new_app_error, project_locked_by}

abbrev pub Locks : Type 0
Locks = Dict String

-- One pass of the loop of Acquire: the lock, or the holder whose channel it waits for.
pub data Attempt : Type 0 where
  granted : Attempt
  busy : String → Attempt

unfoldable pub attempt : String → String → Locks → Attempt × Locks
attempt project op locks = elim (lookup project locks) [
  | none ↦ (granted, insert project op locks)
  | some holder ↦ (busy holder, locks)
]

-- Acquire when the context ends while it waits.
pub acquire_cancelled : String → String → AppError
acquire_cancelled project holder =
    new_app_error Code.project_locked (project_locked_by project holder) 409

-- TryAcquire: whether the lock was taken.
pub try_acquire : String → String → Locks → Bool × Locks
try_acquire project op locks = elim (lookup project locks) [
  | none ↦ (true, insert project op locks)
  | some holder ↦ (false, locks)
]

-- IsLocked: the holder, if there is one.
unfoldable pub is_locked : String → Locks → Option String
is_locked project locks = lookup project locks

-- The function that releaseFunc returns: it does not ask who holds the lock.
unfoldable pub release : String → Locks → Locks
release project locks = elim (lookup project locks) [
  | none ↦ locks
  | some holder ↦ delete project locks
]

pub attempt-granted :
    (p op : String) (l : Locks)
    → (attempt p op l).0 ≡ granted
    → (lookup p l ≡ none) × ((attempt p op l).1 ≡ insert p op l)
unfolding attempt
attempt-granted p op l h = ground arith

pub attempt-busy :
    (p op holder : String) (l : Locks)
    → (attempt p op l).0 ≡ busy holder
    → (lookup p l ≡ some holder) × ((attempt p op l).1 ≡ l)
unfolding attempt
attempt-busy p op holder l h = ground arith

pub try_acquire-true :
    (p op : String) (l : Locks)
    → (try_acquire p op l).0 ≡ true
    → (lookup p l ≡ none) × ((try_acquire p op l).1 ≡ insert p op l)
unfolding try_acquire
try_acquire-true p op l h = ground arith

pub try_acquire-false :
    (p op : String) (l : Locks) → (try_acquire p op l).0 ≡ false → (try_acquire p op l).1 ≡ l
unfolding try_acquire
try_acquire-false p op l h = ground arith

pub release-held : (p op : String) (l : Locks) → lookup p l ≡ some op → release p l ≡ delete p l
unfolding release
release-held p op l h = ground arith

pub release-free : (p : String) (l : Locks) → lookup p l ≡ none → release p l ≡ l
unfolding release
release-free p l h = ground arith

pub attempt-free :
    (p op : String) (l : Locks) → lookup p l ≡ none → attempt p op l ≡ (granted, insert p op l)
unfolding attempt
attempt-free p op l h = rw (h, attempt) refl

-- A project that is taken and given back is as it was.
pub release-insert :
    (p op q : String) (l : Locks)
    → lookup p l ≡ none
    → lookup q (release p (insert p op l)) ≡ lookup q l
release-insert p op q l free =
    rw (release-held p op (insert p op l) (rw (lookup-insert p p op l, same_self p) refl)) (
      lookup-delete-insert p q op l ∙ elim (Bool-cases (same p q)) [
        | inl e ↦ rw (e, sym (eq_of_same p q e)) (sym free)
        | inr e ↦ rw e refl
      ])
