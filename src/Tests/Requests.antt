-- ===== src/Tests/Requests.antt =====
-- Requests for a project by users with and without grants.
use compose_cockpit.Base.{String, some, ◌≡◌, ◌≢◌, ◌↔◌, ◌⊎◌, refl, same, if◌then◌else◌, eq_iff}
use compose_cockpit.Domain.User.{Role, role_admin, role_operator, role_viewer}
use compose_cockpit.Auth.Access.{Claims, next, operate_project, operate_project-passes}
use compose_cockpit.Auth.Permissions.{has_permission}

-- Ann may operate `p1`; Bob may see it.
abbrev pub grants : String → String → Role
grants user project =
    if same project "p1"
    then (if same user "ann" then role_operator else if same user "bob" then role_viewer else "")
    else ""

abbrev ann : Claims
ann = record { user_id = "ann"; role = role_operator }

abbrev pub bob : Claims
bob = record { user_id = "bob"; role = role_viewer }

ann_operates : operate_project grants (some ann) "p1" ≡ next
unfolding operate_project has_permission
ann_operates = refl

p1_named : ◌≢◌ {A = String} "p1" ""
p1_named e = let f = (eq_iff "p1" "").1 e in cc

operate_project-passes_example :
    (operate_project grants (some bob) "p1" ≡ next)
    ↔ (role_viewer ≡ role_admin)
      ⊎ ((role_viewer ≡ role_operator)
          × (grants "bob" "p1" ≢ "")
          × (grants "bob" "p1" ≢ role_viewer))
operate_project-passes_example = operate_project-passes grants bob "p1" p1_named
