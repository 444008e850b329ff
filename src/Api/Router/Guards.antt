-- ===== src/Api/Router/Guards.antt =====
-- What it takes to pass the guards of a route of internal/api/router.go.
use compose_cockpit.Base.{
  String, Bool, true, false, ◌&&◌, ◌||◌, Option, none, some, List, [], ◌∷◌, ◌≡◌, ◌≢◌, refl, subst,
  Bool-cases, Option-cases, ◌⊎◌, inl, inr, same, arith, eq_iff,
}
use compose_cockpit.Domain.User.{Role, role_admin, role_operator, role_viewer}
use compose_cockpit.Auth.Permissions.{
  perm_project_read, perm_project_operate, operate-has_permission,
}
use compose_cockpit.Auth.Access.{
  Verdict, next, Claims, then_guard, require_permission, require_role, project_acl, unset,
}
use compose_cockpit.Api.Router.{Guard, authenticated, role, permission, acl, check, behind, pass}

abbrev pub same_guard : Guard → Guard → Bool
same_guard (role r) (role q) = same r q
same_guard (permission r) (permission q) = same r q
same_guard (acl r) (acl q) = same r q
same_guard _ _ = false

abbrev pub is_plain : Guard → Bool
is_plain authenticated = false
is_plain _ = true

abbrev pub all_plain : List Guard → Bool
all_plain [] = true
all_plain (g ∷ gs) = is_plain g && all_plain gs

abbrev pub has_guard : Guard → List Guard → Bool
has_guard g [] = false
has_guard g (x ∷ xs) = same_guard g x || has_guard g xs

-- Behind the login stand guards of which `p` holds.
abbrev pub behind_login : (List Guard → Bool) → List Guard → Bool
behind_login p (authenticated ∷ gs) = all_plain gs && p gs
behind_login p _ = false

-- The guards of a route that changes something.
abbrev pub strict : List Guard → Bool
strict gs =
    has_guard (role role_admin) gs
    || (has_guard (acl perm_project_operate) gs && has_guard (permission perm_project_operate) gs)

same_guard-eq : (g x : Guard) → same_guard g x ≡ true → g ≡ x
same_guard-eq (role r) (role q) h = ground (arith, eq_iff r q)
same_guard-eq (permission r) (permission q) h = ground (arith, eq_iff r q)
same_guard-eq (acl r) (acl q) h = ground (arith, eq_iff r q)
same_guard-eq g x h = ground arith

then_guard-next : (u v : Verdict) → then_guard u v ≡ next → (u ≡ next) × (v ≡ next)
unfolding then_guard
then_guard-next u v h = ground arith

and-true : (a b : Bool) → (a && b) ≡ true → (a ≡ true) × (b ≡ true)
and-true a b h = ground arith

module _ (role_in : String → String → Role) (project : String) (token : Option Claims) where
  check-admin :
      (c : Claims)
      → check role_in project token (role role_admin) (some c) ≡ next
      → c.role ≡ role_admin
  unfolding check require_role
  check-admin c h = ground (arith, eq_iff role_admin c.role)

  pub check-read :
      (c : Claims)
      → project ≢ ""
      → check role_in project token (acl perm_project_read) (some c) ≡ next
      → (c.role ≡ role_admin) ⊎ (role_in c.user_id project ≢ "")
  unfolding check project_acl unset
  check-read c named h =
      ground
        (arith, eq_iff c.role role_admin, eq_iff project "", eq_iff (role_in c.user_id project) "")

  check-operate :
      (c : Claims)
      → project ≢ ""
      → check role_in project token (acl perm_project_operate) (some c) ≡ next
      → check role_in project token (permission perm_project_operate) (some c) ≡ next
      → (c.role ≡ role_admin)
        ⊎ ((c.role ≡ role_operator)
            × (role_in c.user_id project ≢ "")
            × (role_in c.user_id project ≢ role_viewer))
  unfolding check project_acl unset require_permission
  check-operate c named h k = ground (
    arith,
    eq_iff c.role role_admin,
    eq_iff project "",
    eq_iff (role_in c.user_id project) "",
    eq_iff (role_in c.user_id project) role_viewer,
    operate-has_permission c.role,
  )

  behind-plain :
      (x : Guard) (claims : Option Claims)
      → is_plain x ≡ true
      → behind role_in project token x claims ≡ claims
  behind-plain authenticated claims h = absurd (cc)
  behind-plain (role r) claims h = refl
  behind-plain (permission r) claims h = refl
  behind-plain (acl r) claims h = refl

  -- Every guard of a plain list has let the request through.
  pub pass-check :
      (g : Guard) (gs : List Guard) (c : Claims)
      → all_plain gs ≡ true
      → has_guard g gs ≡ true
      → pass role_in project token gs (some c) ≡ next
      → check role_in project token g (some c) ≡ next
  unfolding pass
  pass-check g [] c plain has h = absurd (cc)
  pass-check g (x ∷ xs) c plain has h =
      let (one, rest) = then_guard-next _ _ h in
      let (px, pxs) = and-true _ _ plain in
      elim (Bool-cases (same_guard g x)) [
        | inl e ↦ rw (same_guard-eq g x e) one
        | inr e ↦
            pass-check g xs c pxs (ground arith) (
              subst (λ o. pass role_in project token xs o ≡ next) (behind-plain x (some c) px) rest)
      ]

  -- Behind the login the claims are those of the token.
  pub pass-login :
      (p : List Guard → Bool) (gs : List Guard)
      → behind_login p gs ≡ true
      → pass role_in project token gs none ≡ next
      → (c : Claims) × (token ≡ some c)
        × (rest : List Guard) × (all_plain rest ≡ true)
        × (p rest ≡ true)
        × (pass role_in project token rest (some c) ≡ next)
  unfolding pass check then_guard
  pass-login p [] b h = absurd (cc)
  pass-login p (authenticated ∷ gs) b h =
      let (plain, holds) = and-true (all_plain gs) (p gs) b in
      elim (Option-cases token) [
        | inl e ↦ absurd (ground arith)
        | inr (c, e) ↦ (
          c,
          e,
          gs,
          plain,
          holds,
          subst (λ o. pass role_in project token gs o ≡ next) e (then_guard-next _ _ h).1,
        )
      ]
  pass-login p (role r ∷ gs) b h = absurd (cc)
  pass-login p (permission r ∷ gs) b h = absurd (cc)
  pass-login p (acl r ∷ gs) b h = absurd (cc)

  pub check-strict :
      (gs : List Guard) (c : Claims)
      → project ≢ ""
      → all_plain gs ≡ true
      → strict gs ≡ true
      → pass role_in project token gs (some c) ≡ next
      → (c.role ≡ role_admin)
        ⊎ ((c.role ≡ role_operator)
            × (role_in c.user_id project ≢ "")
            × (role_in c.user_id project ≢ role_viewer))
  check-strict gs c named plain s h = elim (Bool-cases (has_guard (role role_admin) gs)) [
    | inl e ↦ inl (check-admin c (pass-check (role role_admin) gs c plain e h))
    | inr e ↦
        let (a, p) = and-true _ _ (rw e at s) in
        check-operate c named (pass-check (acl perm_project_operate) gs c plain a h)
          (pass-check (permission perm_project_operate) gs c plain p h)
  ]
