-- ===== src/Store/Grants/Effects.antt =====
-- What Grant and Revoke of internal/api/handlers/acl_handler.go change for the guards of a project, with
-- the repository of internal/store/acl_repo.go.
use compose_cockpit.Base.{
  String, Bool, true, false, ◌||◌, Option, none, some, ◌≡◌, ◌≢◌, refl, ap, sym, subst, ◌∙◌, ◌↔◌,
  same, same_self, if◌then◌else◌, Bool-cases, eq_of_same, ◌⊎◌, inl, inr, arith, eq_iff,
}
use compose_cockpit.Domain.User.{Role, role_operator, role_viewer, role_admin, ProjectAcl}
use compose_cockpit.Auth.Access.{
  Claims, next, forbidden, read_project, operate_project, project_acl, read_project-passes,
  operate_project-passes, unset, then_guard,
}
use compose_cockpit.Api.Reply.{success}
use compose_cockpit.Api.Accounts.{internal_error, bad_request}
use compose_cockpit.Api.Users.{GrantAclRequest, grant, revoke, granted_acl}
use compose_cockpit.Store.Grants.{
  GrantsTable, GrantsLaws, same_key, get_user_project_role, acl_repo, or_no_role,
}

or_no_role-if :
    (b : Bool) (x y : Option Role)
    → or_no_role (if b then x else y) ≡ (if b then or_no_role x else or_no_role y)
or_no_role-if true x y = refl
or_no_role-if false x y = refl

if-true : {b : Bool} (x y : Role) → b ≡ true → (if b then x else y) ≡ x
if-true x y e = rw (e) refl

-- The two roles of a grant.
role_of_two :
    (r : Role)
    → (same r role_operator || same r role_viewer) ≡ true
    → (r ≡ role_operator) ⊎ (r ≡ role_viewer)
role_of_two r two = elim (Bool-cases (same r role_operator)) [
  | inl h ↦ inl (eq_of_same r role_operator h)
  | inr h ↦ inr (eq_of_same r role_viewer (ground arith))
]

two_roles-set : (r : Role) → (r ≡ role_operator) ⊎ (r ≡ role_viewer) → r ≢ ""
two_roles-set r (inl h) z = cc
two_roles-set r (inr h) z = cc

same_key_self : (u v q : String) → u ≡ v → same_key u q v q ≡ true
same_key_self u v q e = subst (λ w. same_key u q w q ≡ true) e (rw (same_self u, same_self q) refl)

-- The guards for a user whose role on the project is known.
module _ (role_in : String → String → Role) (who : Claims) (project : String) (r : Role)
    (named : project ≢ "") (own : role_in who.user_id project ≡ r) where
  granted-read :
      (r ≡ role_operator) ⊎ (r ≡ role_viewer) → read_project role_in (some who) project ≡ next
  granted-read two =
      (read_project-passes role_in who project named).1
        (inr (λ z. two_roles-set r two (sym own ∙ z)))

  operator_left :
      who.role ≡ role_operator
      → (r ≡ role_operator) ⊎ (r ≡ role_viewer)
      → (who.role ≡ role_admin)
        ⊎ ((who.role ≡ role_operator)
            × (role_in who.user_id project ≢ "")
            × (role_in who.user_id project ≢ role_viewer))
      → r ≡ role_operator
  operator_left op two (inl h) = absurd cc
  operator_left op (inl h) (inr p) = h
  operator_left op (inr h) (inr (o, set, above)) = absurd (above (own ∙ h))

  granted-operate :
      who.role ≡ role_operator
      → (r ≡ role_operator) ⊎ (r ≡ role_viewer)
      → (operate_project role_in (some who) project ≡ next) ↔ (r ≡ role_operator)
  granted-operate op two =
      let passes = operate_project-passes role_in who project named in
      (
        λ h. operator_left op two (passes.0 h),
        λ e. passes.1 (inr (op, (λ z. two_roles-set r two (sym own ∙ z)), λ z. cc)),
      )

  revoked-read :
      who.role ≢ role_admin → r ≡ "" → read_project role_in (some who) project ≡ forbidden
  unfolding read_project project_acl unset
  revoked-read plain none_left =
      rw (own, none_left) ground (arith, eq_iff project "", eq_iff who.role role_admin)

  revoked-operate :
      who.role ≢ role_admin → r ≡ "" → operate_project role_in (some who) project ≡ forbidden
  unfolding operate_project then_guard read_project
  revoked-operate plain none_left = rw (revoked-read plain none_left) refl

module _ {S : Type 0} (table : GrantsTable S) where
  -- A revocation that succeeds has taken the row away.
  revoke-removed :
      (project user : String) (s : S) (r : String)
      → (revoke (acl_repo table) project user s).0 ≡ success 200 r
      → table.remove user project s ≡ some (revoke (acl_repo table) project user s).1
  unfolding revoke acl_repo internal_error
  revoke-removed project user s r e = ground arith

  -- A grant that succeeds has set a row with one of the two roles.
  grant-upserted :
      (project : String) (c : Claims) (req : GrantAclRequest) (s : S) (a : ProjectAcl)
      → (grant (acl_repo table) project c (some req) s).0 ≡ success 200 a
      → (table.upsert
            (record {
              user_id = req.user_id;
              project_id = project;
              role = req.role;
              granted_by = c.user_id;
            })
            s
          ≡ some (grant (acl_repo table) project c (some req) s).1)
        × ((same req.role role_operator || same req.role role_viewer) ≡ true)
  unfolding grant acl_repo granted_acl internal_error bad_request
  grant-upserted project c req s a e = ground arith

  -- The role of a user on a project, after a row was set and after it was taken away.
  module _ (laws : GrantsLaws table) where
    get_user_project_role-upsert :
        (a : ProjectAcl) (s s' : S) (v q : String)
        → table.upsert a s ≡ some s'
        → get_user_project_role table s' v q ≡ (
            if same_key a.user_id a.project_id v q
            then a.role
            else get_user_project_role table s v q)
    unfolding get_user_project_role
    get_user_project_role-upsert a s s' v q e =
        ap or_no_role (laws.role_of-upsert a s s' v q e)
        ∙ or_no_role-if (same_key a.user_id a.project_id v q) (some a.role) (table.role_of v q s)

    get_user_project_role-remove :
        (user project : String) (s s' : S) (v q : String)
        → table.remove user project s ≡ some s'
        → get_user_project_role table s' v q
          ≡ (if same_key user project v q then "" else get_user_project_role table s v q)
    unfolding get_user_project_role
    get_user_project_role-remove user project s s' v q e =
        ap or_no_role (laws.role_of-remove user project s s' v q e)
        ∙ or_no_role-if (same_key user project v q) none (table.role_of v q s)

    -- After a grant on a named project that succeeds, an operator who is the user of the grant may read
    -- the project, and may operate it exactly if the grant is of the role operator; the role of any user
    -- on any project is that of the grant for its user and project, and else what it was.
    pub grant-guards :
        (project : String) (c who : Claims) (req : GrantAclRequest) (s : S) (a : ProjectAcl)
        → project ≢ ""
        → who.user_id ≡ req.user_id
        → who.role ≡ role_operator
        → (grant (acl_repo table) project c (some req) s).0 ≡ success 200 a
        → let s' = (grant (acl_repo table) project c (some req) s).1 in
          let role_in = get_user_project_role table s' in
          (read_project role_in (some who) project ≡ next)
          × ((operate_project role_in (some who) project ≡ next) ↔ (req.role ≡ role_operator))
          × ((v q : String)
              → role_in v q ≡ (
                  if same_key req.user_id project v q
                  then req.role
                  else get_user_project_role table s v q))
    grant-guards project c who req s a named his op e =
        let (stored, two) = grant-upserted project c req s a e in
        let s' = (grant (acl_repo table) project c (some req) s).1 in
        let role = λ (v q : String). get_user_project_role-upsert _ s s' v q stored in
        let own =
          role who.user_id project
          ∙ if-true _ _ (same_key_self req.user_id who.user_id project (sym his)) in
        (
          granted-read _ who project req.role named own (role_of_two req.role two),
          granted-operate _ who project req.role named own op (role_of_two req.role two),
          role,
        )

    -- After a revocation that succeeds, the user of it, if he is no administrator, may neither read nor
    -- operate the project, which is named; no other role has changed.
    pub revoke-guards :
        (project : String) (who : Claims) (s : S) (r : String)
        → project ≢ ""
        → who.role ≢ role_admin
        → (revoke (acl_repo table) project who.user_id s).0 ≡ success 200 r
        → let s' = (revoke (acl_repo table) project who.user_id s).1 in
          let role_in = get_user_project_role table s' in
          (read_project role_in (some who) project ≡ forbidden)
          × (operate_project role_in (some who) project ≡ forbidden)
          × ((v q : String)
              → role_in v q ≡ (
                  if same_key who.user_id project v q
                  then ""
                  else get_user_project_role table s v q))
    revoke-guards project who s r named plain e =
        let s' = (revoke (acl_repo table) project who.user_id s).1 in
        let role = λ (v q : String).
          get_user_project_role-remove who.user_id project s s' v q
            (revoke-removed project who.user_id s r e) in
        let own =
          role who.user_id project
          ∙ if-true _ _ (same_key_self who.user_id who.user_id project refl) in
        (
          revoked-read _ who project "" named own plain refl,
          revoked-operate _ who project "" named own plain refl,
          role,
        )
