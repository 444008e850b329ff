-- ===== src/Tests/Grants.antt =====
-- A grant and its revocation in a table that is a list of grants.
use mathlib.Core.Option.{some-injective}
use compose_cockpit.Base.{
  String, Bool, true, false, Option, none, some, List, [], ◌∷◌, ◌≡◌, ◌↔◌, refl, sym, ap, ◌∙◌, same,
  if◌then◌else◌, Bool-cases, inl, inr, map, filter, not, arith, eq_iff,
}
use compose_cockpit.Base.Results.{ok}
use compose_cockpit.Domain.User.{Role, role_operator, role_viewer, role_admin, ProjectAcl}
use compose_cockpit.Auth.Access.{Claims, next, forbidden, read_project, operate_project}
use compose_cockpit.Api.Reply.{success}
use compose_cockpit.Api.Users.{GrantAclRequest, grant, revoke, granted_acl}
use compose_cockpit.Store.Grants.{
  GrantsTable, GrantsLaws, same_key, get_user_project_role, acl_repo,
}
use compose_cockpit.Store.Grants.Effects.{grant-guards, revoke-guards}

abbrev role_in : String → String → List ProjectAcl → Option Role
role_in v q [] = none
role_in v q (a ∷ s) =
    let rest = role_in v q s in if same_key a.user_id a.project_id v q then some a.role else rest

abbrev other_key : String → String → ProjectAcl → Bool
other_key user project a = not (same_key user project a.user_id a.project_id)

abbrev rows : GrantsTable (List ProjectAcl)
rows = record {
  role_of = role_in;
  upsert = λ a s. some (a ∷ filter (other_key a.user_id a.project_id) s);
  remove = λ user project s. some (filter (other_key user project) s);
  rows_of_project = λ project s. ok (map ok (filter (λ a. same a.project_id project) s), none);
  rows_of_user = λ user s. ok (map ok (filter (λ a. same a.user_id user) s), none);
}

if-none : (b : Bool) (o : Option Role) → o ≡ none → o ≡ (if b then none else o)
if-none true o e = e
if-none false o e = refl

role_in-filter :
    (user project v q : String) (s : List ProjectAcl)
    → role_in v q (filter (other_key user project) s)
      ≡ (if same_key user project v q then none else role_in v q s)
role_in-filter user project v q [] = if-none (same_key user project v q) none refl
role_in-filter user project v q (a ∷ s) =
    let rest = role_in-filter user project v q s in
    elim (Bool-cases (same_key user project a.user_id a.project_id)) [
      | inl h ↦ ground (
        arith,
        rest,
        eq_iff user v,
        eq_iff project q,
        eq_iff user a.user_id,
        eq_iff project a.project_id,
        eq_iff a.user_id v,
        eq_iff a.project_id q,
      )
      | inr h ↦ ground (
        arith,
        rest,
        eq_iff user v,
        eq_iff project q,
        eq_iff user a.user_id,
        eq_iff project a.project_id,
        eq_iff a.user_id v,
        eq_iff a.project_id q,
      )
    ]

shadowed :
    (a : ProjectAcl) (v q : String) (s : List ProjectAcl)
    → role_in v q (filter (other_key a.user_id a.project_id) s)
      ≡ (if same_key a.user_id a.project_id v q then none else role_in v q s)
    → role_in v q (a ∷ filter (other_key a.user_id a.project_id) s)
      ≡ (if same_key a.user_id a.project_id v q then some a.role else role_in v q s)
shadowed a v q s rest = ground arith

rows-laws : GrantsLaws rows
rows-laws = record { role_of-upsert = set; role_of-remove = gone }
  where
    gone :
        (user project : String) (s s' : List ProjectAcl) (v q : String)
        → rows.remove user project s ≡ some s'
        → role_in v q s' ≡ (if same_key user project v q then none else role_in v q s)
    gone user project s s' v q e =
        ap (role_in v q) (sym (some-injective _ s' e)) ∙ role_in-filter user project v q s

    set :
        (a : ProjectAcl) (s s' : List ProjectAcl) (v q : String)
        → rows.upsert a s ≡ some s'
        → role_in v q s'
          ≡ (if same_key a.user_id a.project_id v q then some a.role else role_in v q s)
    set a s s' v q e =
        ap (role_in v q) (sym (some-injective _ s' e))
        ∙ shadowed a v q s (role_in-filter a.user_id a.project_id v q s)

abbrev ann : Claims
ann = record { user_id = "u1"; role = role_admin }

abbrev bob : Claims
bob = record { user_id = "u2"; role = role_operator }

abbrev bobs_view : ProjectAcl
bobs_view = record { user_id = "u2"; project_id = "p1"; role = role_viewer; granted_by = "u1" }

abbrev bobs_other : ProjectAcl
bobs_other = record { user_id = "u2"; project_id = "p2"; role = role_operator; granted_by = "u1" }

-- Bob views the project "p1" and operates the project "p2".
abbrev two_grants : List ProjectAcl
two_grants = bobs_view ∷ bobs_other ∷ []

abbrev to_operate : GrantAclRequest
to_operate = record { user_id = "u2"; role = role_operator }

abbrev bobs_grant : ProjectAcl
bobs_grant = record { user_id = "u2"; project_id = "p1"; role = role_operator; granted_by = "u1" }

abbrev after : List ProjectAcl
after = (grant (acl_repo rows) "p1" ann (some to_operate) two_grants).1

granted : (grant (acl_repo rows) "p1" ann (some to_operate) two_grants).0 ≡ success 200 bobs_grant
unfolding grant acl_repo granted_acl
granted = refl

abbrev without : List ProjectAcl
without = (revoke (acl_repo rows) "p1" "u2" two_grants).1

revoked : (revoke (acl_repo rows) "p1" "u2" two_grants).0 ≡ success 200 "revoked"
unfolding revoke acl_repo
revoked = refl

grant-guards_example :
    (read_project (get_user_project_role rows after) (some bob) "p1" ≡ next)
    × ((operate_project (get_user_project_role rows after) (some bob) "p1" ≡ next)
        ↔ (role_operator ≡ role_operator))
    × ((v q : String)
        → get_user_project_role rows after v q ≡ (
            if same_key "u2" "p1" v q
            then role_operator
            else get_user_project_role rows two_grants v q))
grant-guards_example =
    grant-guards rows rows-laws "p1" ann bob to_operate two_grants bobs_grant (λ z. cc) refl refl
      granted

revoke-guards_example :
    (read_project (get_user_project_role rows without) (some bob) "p1" ≡ forbidden)
    × (operate_project (get_user_project_role rows without) (some bob) "p1" ≡ forbidden)
    × ((v q : String)
        → get_user_project_role rows without v q
          ≡ (if same_key "u2" "p1" v q then "" else get_user_project_role rows two_grants v q))
revoke-guards_example =
    revoke-guards rows rows-laws "p1" bob two_grants "revoked" (λ z. cc) (λ z. cc) revoked
