-- ===== src/Tests/Sorting.antt =====
-- Two services, of which one depends on the other.
use compose_cockpit.Base.{
  arith, eq_iff, ℕ, ◌≤◌, ◌<◌, String, some, List, [], ◌∷◌, ◌≡◌, refl, same, if◌then◌else◌, In,
  arith,
}
use compose_cockpit.Domain.Project.{Service}
use compose_cockpit.Docker.Sort.{service_of, dependencies, topological_sort}
use compose_cockpit.Docker.Sort.Dependencies.{Ordered, topological_sort-Ordered}
use compose_cockpit.Tests.Shop.{service_named}

abbrev web_and_db : List Service
web_and_db =
    record (service_named "web") { depends_on = ("db", record { condition = "" }) ∷ [] }
    ∷ service_named "db"
    ∷ []

abbrev names : List String
names = "web" ∷ "db" ∷ []

-- `db` comes first.
sorted :
    topological_sort web_and_db names
    ≡ service_named "db"
      ∷ record (service_named "web") { depends_on = ("db", record { condition = "" }) ∷ [] }
      ∷ []
unfolding topological_sort
sorted = refl

abbrev depth : String → ℕ
depth n = if same n "web" then 1 else 0

depth-lower : (n d : String) → In d (dependencies (service_of n web_and_db)) → depth d < depth n
depth-lower n d i = ground (arith, eq_iff "db" n, eq_iff "web" n, eq_iff n "web", eq_iff d "web", i)

depth-small : (n : String) → depth n ≤ 2
depth-small n = ground arith

topological_sort-Ordered_example :
    Ordered web_and_db [] (topological_sort web_and_db names)
    × ((n : String) (s : Service)
        → In n names
        → service_of n web_and_db ≡ some s
        → In s (topological_sort web_and_db names))
topological_sort-Ordered_example =
    topological_sort-Ordered web_and_db depth depth-lower depth-small names
