-- ===== src/Docker/Sort/Once.antt =====
-- topologicalSort of internal/docker/operations.go: which services it gives.
use mathlib.Core.List.{append_assoc, append-nil}
use compose_cockpit.Base.{
  ℕ, zero, suc, String, false, Option, none, some, List, [], ◌∷◌, ◌++◌, ◌≡◌, ◌≢◌, refl, sym, ap,
  ◌∙◌, contains, In, In-contains, All, All-append, Bool-cases, inl, inr, arith, eq_iff, length,
  subst,
}
use compose_cockpit.Domain.Project.{Service}
use compose_cockpit.Docker.Sort.{
  service_of, dependencies, appended, Walk, visit_all, visit, topological_sort,
}

All-map :
    {P Q : Service → Type 0} (xs : List Service) → ((s : Service) → P s → Q s) → All P xs → All Q xs
All-map [] f h = tt
All-map (x ∷ xs) f (hx, h) = (f x hx, All-map xs f h)

-- No name stands in the list twice.
abbrev pub Distinct : List Service → Type 0
Distinct [] = Unit
Distinct (s ∷ ss) = All (λ t. t.name ≢ s.name) ss × Distinct ss

Distinct-append :
    (xs ys : List Service)
    → Distinct xs
    → Distinct ys
    → All (λ s. All (λ t. t.name ≢ s.name) ys) xs
    → Distinct (xs ++ ys)
Distinct-append [] ys dx dy cross = dy
Distinct-append (x ∷ xs) ys (hx, dx) dy (cx, cross) =
    (All-append (λ t. t.name ≢ x.name) xs ys hx cx, Distinct-append xs ys dx dy cross)

named-service_of :
    (name : String) (ss : List Service) (s : Service) → service_of name ss ≡ some s → s.name ≡ name
named-service_of name [] s e = absurd cc
named-service_of name (t ∷ ss) s e = ground (arith, eq_iff t.name name, named-service_of name ss s)

module _ (services : List Service) where
  -- A service that a part of the walk appended: it was not visited before and is afterwards.
  abbrev Fresh : Walk → Walk → Service → Type 0
  Fresh w w' s =
      (¬ In s.name w.visited) × In s.name w'.visited × (service_of s.name services ≡ some s)

  record Extends (w w' : Walk) : Type 0 where
    new : List Service
    order : w'.order ≡ w.order ++ new
    more : (n : String) → In n w.visited → In n w'.visited
    fresh : All (Fresh w w') new
    distinct : Distinct new

  Extends-refl : (w : Walk) → Extends w w
  Extends-refl w = record {
    new = [];
    order = sym (append-nil w.order);
    more = λ n i. i;
    fresh = tt;
    distinct = tt;
  }

  Extends-trans : (u v w : Walk) → Extends u v → Extends v w → Extends u w
  Extends-trans u v w a b = record {
    new = a.new ++ b.new;
    order = b.order ∙ ap (λ l. l ++ b.new) a.order ∙ append_assoc u.order a.new b.new;
    more = λ n i. b.more n (a.more n i);
    fresh =
        All-append (Fresh u w) a.new b.new
          (All-map a.new (λ s f. (f.0, b.more s.name f.1, f.2)) a.fresh)
          (All-map b.new (λ s f. ((λ i. f.0 (a.more s.name i)), f.1, f.2)) b.fresh);
    distinct = Distinct-append a.new b.new a.distinct b.distinct (
        All-map a.new
          (λ s f. All-map b.new (λ t g e. g.0 (subst (λ n. In n v.visited) (sym e) f.1)) b.fresh)
          a.fresh);
  }

  visit_all-Extends :
      (f : String → Walk → Walk)
      → ((n : String) (w : Walk) → Extends w (f n w))
      → (ns : List String) (w : Walk) → Extends w (visit_all f ns w)
  unfolding visit_all
  visit_all-Extends f h [] w = Extends-refl w
  visit_all-Extends f h (n ∷ ns) w =
      Extends-trans w (f n w) _ (h n w) (visit_all-Extends f h ns (f n w))

  -- The service of the name goes behind what its dependencies appended.
  appended-Extends :
      (name : String) (w below : Walk)
      → contains name w.visited ≡ false
      → Extends (record w { visited = name ∷ w.visited }) below
      → (o : Option Service) → service_of name services ≡ o
      → Extends w (record below { order = appended o below.order })
  appended-Extends name w below free b none e = record {
    new = b.new;
    order = b.order;
    more = λ n i. b.more n (inr i);
    fresh = All-map b.new (λ s f. ((λ i. f.0 (inr i)), f.1, f.2)) b.fresh;
    distinct = b.distinct;
  }
  appended-Extends name w below free b (some s) e =
      let named = named-service_of name services s e in
      record {
        new = b.new ++ s ∷ [];
        order = ap (λ l. l ++ s ∷ []) b.order ∙ append_assoc w.order b.new (s ∷ []);
        more = λ n i. b.more n (inr i);
        fresh =
            All-append (Fresh w below) b.new (s ∷ [])
              (All-map b.new (λ t f. ((λ i. f.0 (inr i)), f.1, f.2)) b.fresh)
              (
                (
                  (λ i.
                      let seen = In-contains name w.visited (subst (λ n. In n w.visited) named i) in
                      cc),
                  subst (λ n. In n below.visited) (sym named) (b.more name (inl refl)),
                  ap (λ n. service_of n services) named ∙ e,
                ),
                tt,
              );
        distinct =
            Distinct-append b.new (s ∷ []) b.distinct (tt, tt)
              (All-map b.new (λ t f. ((λ e'. f.0 (inl (sym e' ∙ named))), tt)) b.fresh);
      }

  visit-Extends : (fuel : ℕ) (name : String) (w : Walk) → Extends w (visit services fuel name w)
  unfolding visit
  visit-Extends zero name w = Extends-refl w
  visit-Extends (suc fuel) name w = elim (Bool-cases (contains name w.visited)) [
    | inl e ↦ rw (e, visit) (Extends-refl w)
    | inr e ↦
        rw (e, visit)
          (appended-Extends name w _ e
            (visit_all-Extends (visit services fuel) (visit-Extends fuel)
              (dependencies (service_of name services)) (record w { visited = name ∷ w.visited }))
            (service_of name services) refl)
  ]

  -- topologicalSort gives no service twice, and only services that it was given.
  topological_sort-Distinct :
      (keys : List String)
      → Distinct (topological_sort services keys)
        × All (λ s. service_of s.name services ≡ some s) (topological_sort services keys)
  unfolding topological_sort
  topological_sort-Distinct keys =
      let start : Walk = record { visited = []; order = [] } in
      let e =
        visit_all-Extends (visit services (suc (suc (length services))))
          (visit-Extends (suc (suc (length services)))) keys start in
      rw e.order (e.distinct, All-map e.new (λ s f. f.2) e.fresh)
