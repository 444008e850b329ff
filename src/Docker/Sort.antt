-- ===== src/Docker/Sort.antt =====
-- topologicalSort of internal/docker/operations.go: a depth-first walk over the dependencies. The
-- order in which `range graph` visits the keys is an argument. `visit` calls itself; here it takes
-- fuel, and each nested call has visited one name more, so the number of services and two is enough.
pub mod Once
pub mod Dependencies
use compose_cockpit.Base.{
  ℕ, zero, suc, String, true, false, Option, none, some, List, [], ◌∷◌, ◌++◌, map, same,
  if◌then◌else◌, contains, length,
}
use compose_cockpit.Domain.Project.{Service}

-- `svcMap[name]`
abbrev pub service_of : String → List Service → Option Service
service_of name [] = none
service_of name (s ∷ ss) = elim (service_of name ss) [
  | some t ↦ some t
  | none ↦ if same s.name name then some s else none
]

abbrev pub dependencies : Option Service → List String
dependencies none = []
dependencies (some s) = map (λ kv. kv.0) s.depends_on

abbrev pub appended : Option Service → List Service → List Service
appended none order = order
appended (some s) order = order ++ s ∷ []

-- The captured variables of the closure.
pub record Walk : Type 0 where
  pub visited : List String
  pub order : List Service

-- `for _, dep := range deps { visit(dep) }`
pub visit_all : (String → Walk → Walk) → List String → Walk → Walk
visit_all visit [] w = w
visit_all visit (n ∷ ns) w = visit_all visit ns (visit n w)

module _ (services : List Service) where
  pub visit : ℕ → String → Walk → Walk
  unfolding visit_all
  visit zero name w = w
  visit (suc fuel) name w = elim (contains name w.visited) [
    | true ↦ w
    | false ↦
        let s = service_of name services in
        let below =
          visit_all (visit fuel) (dependencies s) (record w { visited = name ∷ w.visited }) in
        record below { order = appended s below.order }
  ]

  unfoldable pub topological_sort : List String → List Service
  unfolding visit
  topological_sort keys =
      (visit_all (visit (suc (suc (length services)))) keys
        (record { visited = []; order = [] })).order
