-- ===== src/Tests/Scan.antt =====
-- A heap for the tests: a list in which `pop` looks for the request to serve.
use mathlib.Core.List.{Mem, Perm, perm_middle, mem-cons, not-mem-nil}
use mathlib.Core.List.Perm
use mathlib.Core.Bool.{Bool-set}
use mathlib.Core.Logic.Or
use compose_cockpit.Base.{
  true, false, List, [], ◌∷◌, ◌++◌, ◌≡◌, if◌then◌else◌, arith, Bool-cases, inl, inr,
}
use compose_cockpit.Domain.Operation.{OperationRequest}
use compose_cockpit.Orchestrator.Heap.{Heap, less}

unfoldable pub scan :
    OperationRequest → List OperationRequest → OperationRequest × List OperationRequest
scan x [] = (x, [])
scan x (y ∷ ys) = let p = scan y ys in if less p.0 x then (p.0, x ∷ p.1) else (x, p.0 ∷ p.1)

less_irrefl : (a : OperationRequest) → less a a ≡ false
unfolding less
less_irrefl a = ground arith

less_asymm : (a b : OperationRequest) → less a b ≡ true → less b a ≡ false
unfolding less
less_asymm a b h = ground arith

less_trans : (a b c : OperationRequest) → less a b ≡ false → less b c ≡ false → less a c ≡ false
unfolding less
less_trans a b c h k = ground arith

pub scan-perm :
    (x : OperationRequest) (xs : List OperationRequest)
    → Perm ((scan x xs).0 ∷ (scan x xs).1) (x ∷ xs)
unfolding scan
scan-perm x [] = Perm.refl _
scan-perm x (y ∷ ys) = elim (Bool-cases (less (scan y ys).0 x)) [
  | inl e ↦ rw (e, scan) (Perm.trans (Perm.swap _ _ _) (Perm.cons x (scan-perm y ys)))
  | inr e ↦ rw (e, scan) (Perm.cons x (scan-perm y ys))
]

pub scan-least :
    (x : OperationRequest) (xs : List OperationRequest) (y : OperationRequest)
    → Mem y (x ∷ xs)
    → less y (scan x xs).0 ≡ false
unfolding scan
scan-least x [] y m =
    Or.elim (Bool-set _ _) (mem-cons.0 m) (λ e. rw e (less_irrefl x)) (λ n. absurd (not-mem-nil n))
scan-least x (z ∷ zs) y m = elim (Bool-cases (less (scan z zs).0 x)) [
  | inl e ↦
      rw (e, scan)
        (Or.elim (Bool-set _ _) (mem-cons.0 m) (λ f. rw f (less_asymm _ x e))
          (λ n. scan-least z zs y n))
  | inr e ↦
      rw (e, scan)
        (Or.elim (Bool-set _ _) (mem-cons.0 m) (λ f. rw f (less_irrefl x))
          (λ n. less_trans y _ x (scan-least z zs y n) e))
]

abbrev pub scan_heap : Heap
scan_heap = record {
  IsHeap = λ xs. Unit;
  push = λ r xs. r ∷ xs;
  pop = scan;
  remove = λ before r after. before ++ after;
  nil-IsHeap = tt;
  push-IsHeap = λ r xs h. tt;
  push-perm = λ r xs. Perm.refl _;
  pop-IsHeap = λ x xs h. tt;
  pop-perm = scan-perm;
  pop-least = λ x xs h. scan-least x xs;
  remove-IsHeap = λ before r after h. tt;
  remove-perm = λ before r after. Perm.symm (perm_middle before after);
}
