-- ===== src/Api/Router/Reach.antt =====
-- Who reaches which handler of internal/api/router.go.
use compose_cockpit.Base.{
  Bool-cases, String, Bool, true, false, not, ◌&&◌, ◌||◌, Option, none, some, List, [], ◌∷◌, ◌≡◌,
  ◌≢◌, refl, ◌⊎◌, ◌↔◌, inl, inr, In, arith,
}
use compose_cockpit.Docker.History.{contains_text}
use compose_cockpit.Domain.User.{Role, role_admin, role_operator, role_viewer}
use compose_cockpit.Auth.Permissions.{perm_project_read}
use compose_cockpit.Auth.Access.{Verdict, next, Claims}
use compose_cockpit.Api.Router.{
  acl, Handler, liveness, readiness, version, login, refresh, register, Method, get, Route, routes,
  reach,
}
use compose_cockpit.Api.Router.Guards.{
  has_guard, behind_login, strict, pass-check, pass-login, check-strict, check-read,
}

abbrev is_next : Verdict → Bool
is_next next = true
is_next _ = false

-- The handlers that need no login.
abbrev pub is_public : Handler → Bool
is_public liveness = true
is_public readiness = true
is_public version = true
is_public login = true
is_public refresh = true
is_public register = true
is_public _ = false

abbrev is_get : Method → Bool
is_get get = true
is_get _ = false

-- The three handlers before a login that are no GET. Register stores a user.
abbrev pub is_login : Handler → Bool
is_login login = true
is_login refresh = true
is_login register = true
is_login _ = false

-- A route whose method may change something.
abbrev pub is_change : Route → Bool
is_change r = not (is_get r.method)

-- A route of one project.
abbrev pub is_of_project : Route → Bool
is_of_project r = contains_text r.path "{projectID}"

abbrev all_routes : (Route → Bool) → List Route → Bool
all_routes p [] = true
all_routes p (r ∷ rs) = p r && all_routes p rs

all_routes-In :
    (p : Route → Bool) (r : Route) (rs : List Route) → all_routes p rs ≡ true → In r rs → p r ≡ true
all_routes-In p r (x ∷ xs) h (inl e) = rw e (ground arith)
all_routes-In p r (x ∷ xs) h (inr m) = all_routes-In p r xs (ground arith) m
all_routes-In p r [] h m = elim m [ ]

abbrev implies : Bool → Bool → Bool
implies a b = not a || b

abbrev same_bool : Bool → Bool → Bool
same_bool true b = b
same_bool false b = not b

module _ (role_in : String → String → Role) (project : String) where
  open_table :
      all_routes
        (λ r. same_bool (is_next (reach role_in project none r)) (is_public r.handler))
        routes
      ≡ true
  unfolding reach
  open_table = refl

strict_table :
    all_routes (λ r. is_get r.method || is_login r.handler || behind_login strict r.guards) routes
    ≡ true
strict_table = refl

project_table :
    all_routes
      (λ r. implies (is_of_project r) (behind_login (has_guard (acl perm_project_read)) r.guards))
      routes
    ≡ true
unfolding contains_text
project_table = refl

module _ (role_in : String → String → Role) (project : String) (token : Option Claims) where
  -- A route that is no GET is login, refresh or register, which need no token, or it is reached, for a
  -- named project, only with the token of an administrator, or of an operator with a grant on the project
  -- that is neither none nor viewer.
  pub reach-changes :
      (r : Route)
      → In r routes
      → is_change r ≡ true
      → project ≢ ""
      → reach role_in project token r ≡ next
      → (is_login r.handler ≡ true)
        ⊎ ((c : Claims) × (token ≡ some c)
            × ((c.role ≡ role_admin)
                ⊎ ((c.role ≡ role_operator)
                    × (role_in c.user_id project ≢ "")
                    × (role_in c.user_id project ≢ role_viewer))))
  unfolding reach
  reach-changes r m change named h =
      let t =
        all_routes-In (λ x. is_get x.method || is_login x.handler || behind_login strict x.guards) r
          routes strict_table m in
      elim (Bool-cases (is_login r.handler)) [
        | inl open_handler ↦ inl open_handler
        | inr guarded ↦
            let (c, e, gs, plain, s, k) =
              pass-login role_in project token strict r.guards (ground arith) h in
            inr (c, e, check-strict role_in project token gs c named plain s k)
      ]

  -- A route of a named project is reached only with the token of an administrator, or of a user with a
  -- grant on the project.
  pub reach-project :
      (r : Route)
      → In r routes
      → is_of_project r ≡ true
      → project ≢ ""
      → reach role_in project token r ≡ next
      → (c : Claims) × (token ≡ some c) × ((c.role ≡ role_admin) ⊎ (role_in c.user_id project ≢ ""))
  unfolding reach
  reach-project r m of named h =
      let read = has_guard (acl perm_project_read) in
      let t =
        all_routes-In (λ x. implies (is_of_project x) (behind_login read x.guards)) r routes
          project_table m in
      let (c, e, gs, plain, s, k) =
        pass-login role_in project token read r.guards (ground arith) h in
      (
        c,
        e,
        check-read role_in project token c named
            (pass-check role_in project token (acl perm_project_read) gs c plain s k),
      )

-- Without a valid token exactly the three endpoints of health and the three of the login are reached.
pub reach-public :
    (role_in : String → String → Role) (project : String) (r : Route)
    → In r routes
    → (reach role_in project none r ≡ next) ↔ (is_public r.handler ≡ true)
reach-public role_in project r m =
    let t =
      all_routes-In (λ x. same_bool (is_next (reach role_in project none x)) (is_public x.handler))
        r routes (open_table role_in project) m in
    ground arith
