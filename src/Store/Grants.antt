-- ===== src/Store/Grants.antt =====
-- internal/store/acl_repo.go: the repository of the grants on projects over its table. The statements on
-- the table are parameters, with what SQL says of them as laws.
pub mod Effects
use compose_cockpit.Base.{
  String, Bool, ◌&&◌, Option, none, some, List, [], ◌∷◌, ◌≡◌, same, if◌then◌else◌,
}
use compose_cockpit.Base.Results.{Result, ok, err, ◌>>=◌}
use compose_cockpit.Domain.User.{Role, ProjectAcl}
use compose_cockpit.Api.Accounts.{AclRepository}

-- The rows of a query: an entry of the table, or the error of a Scan; then `rows.Err()`.
abbrev pub AclRows : Type 0
AclRows = List (Result String ProjectAcl) × Option String

-- SELECT of a role, where `none` is any error, INSERT with ON CONFLICT, DELETE, and SELECT of the rows of
-- a project and of a user, on the table `project_acl`.
pub record GrantsTable (S : Type 0) : Type 0 where
  pub role_of : String → String → S → Option Role
  pub upsert : ProjectAcl → S → Option S
  pub remove : String → String → S → Option S
  pub rows_of_project : String → S → Result String AclRows
  pub rows_of_user : String → S → Result String AclRows

-- The key of the table is the user with the project.
abbrev pub same_key : String → String → String → String → Bool
same_key user project v q = same user v && same project q

-- An INSERT with ON CONFLICT sets the row of its key, a DELETE takes it away, and both leave the others.
pub record GrantsLaws {S : Type 0} (table : GrantsTable S) : Type 0 where
  pub role_of-upsert :
      (a : ProjectAcl) (s s' : S) (v q : String)
      → table.upsert a s ≡ some s'
      → table.role_of v q s'
        ≡ (if same_key a.user_id a.project_id v q then some a.role else table.role_of v q s)
  pub role_of-remove :
      (user project : String) (s s' : S) (v q : String)
      → table.remove user project s ≡ some s'
      → table.role_of v q s' ≡ (if same_key user project v q then none else table.role_of v q s)

-- The loop of ListByProject and ListByUser over the rows.
scan_acls : List (Result String ProjectAcl) → Option String → Result String (List ProjectAcl)
scan_acls [] none = ok []
scan_acls [] (some e) = err e
scan_acls (err e ∷ rows) end = err e
scan_acls (ok a ∷ rows) end = do acls ← scan_acls rows end; ok (a ∷ acls)

-- A role that was found, and "" without an error otherwise.
abbrev or_no_role : Option Role → Role
or_no_role none = ""
or_no_role (some r) = r

module _ {S : Type 0} (table : GrantsTable S) where
  unfoldable pub get_user_project_role : S → String → String → Role
  get_user_project_role s user project = or_no_role (table.role_of user project s)

  -- SetProjectACL and Delete of aclRepo
  unfoldable pub acl_repo : AclRepository S
  acl_repo = record { set_project_acl = table.upsert; delete = table.remove }

  pub list_by_project : String → S → Result String (List ProjectAcl)
  unfolding scan_acls
  list_by_project project s = do rows ← table.rows_of_project project s; scan_acls rows.0 rows.1

  pub list_by_user : String → S → Result String (List ProjectAcl)
  unfolding scan_acls
  list_by_user user s = do rows ← table.rows_of_user user s; scan_acls rows.0 rows.1
