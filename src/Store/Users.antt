-- ===== src/Store/Users.antt =====
-- internal/store/user_repo.go: the repository of users over its table. The statements on the table and
-- bcrypt are parameters, with what their documentation says of them as laws.
pub mod Logins
use compose_cockpit.Base.{
  List, [], ◌∷◌, ℕ, String, Bool, true, false, Option, none, some, ◌≡◌, if◌then◌else◌,
}
use compose_cockpit.Base.Results.{Result, ok, err, ◌>>=◌}
use compose_cockpit.Api.Pages.{PaginationOpts, normalize_opts}
use compose_cockpit.Domain.User.{User}
use compose_cockpit.Api.Accounts.{UserRepository}

-- What Scan of a single row gives: the row, pgx.ErrNoRows, or another error.
pub data Found : Type 0 where
  row : User → Found
  no_rows failed : Found

-- INSERT, SELECT by the id and by the name, UPDATE, DELETE and COUNT on the table `users`.
pub record UsersTable (S : Type 0) : Type 0 where
  pub insert : User → S → Option S
  pub by_id : String → S → Found
  pub by_username : String → S → Found
  pub set_fields : User → S → Option S
  pub remove : String → S → Option S
  pub count_rows : S → Option ℕ

-- A row that was put in is selected by its name, which is unique.
pub record TableLaws {S : Type 0} (table : UsersTable S) : Type 0 where
  pub by_username-insert :
      (u : User) (s s' : S) → table.insert u s ≡ some s' → table.by_username u.username s' ≡ row u

-- GenerateFromPassword with a cost, and whether CompareHashAndPassword accepts.
pub record Bcrypt : Type 0 where
  pub generate : ℕ → String → Option String
  pub accepts : String → String → Bool

-- A password is accepted for its own hash.
pub record BcryptLaws (bcrypt : Bcrypt) : Type 0 where
  pub accepts-generate :
      (cost : ℕ) (password hash : String)
      → bcrypt.generate cost password ≡ some hash
      → bcrypt.accepts hash password ≡ true

abbrev no_user : User
no_user = record { id = ""; username = ""; email = ""; password_hash = ""; role = "" }

-- The pointer and whether there is an error: a failing query gives the address of the empty user.
unfoldable pub scanned : Found → Option User × Bool
scanned (row u) = (some u, false)
scanned no_rows = (none, false)
scanned failed = (some no_user, true)

module _ {S : Type 0} (table : UsersTable S) (bcrypt : Bcrypt) (cost : ℕ) where
  unfoldable pub create_user : User → String → S → Option S
  create_user user password s = elim (bcrypt.generate cost password) [
    | none ↦ none
    | some hash ↦ table.insert (record user { password_hash = hash }) s
  ]

  -- ValidatePassword after GetByUsername.
  unfoldable pub compared : String → Option User × Bool → Option User × Bool
  compared password (user, true) = (none, true)
  compared password (none, false) = (none, false)
  compared password (some user, false) =
      if bcrypt.accepts user.password_hash password then (some user, false) else (none, false)

  -- userRepo
  unfoldable pub user_repo : UserRepository S
  unfolding create_user compared scanned
  user_repo = record {
    create = create_user;
    get_by_id = λ id s. scanned (table.by_id id s);
    get_by_username = λ name s. scanned (table.by_username name s);
    update = table.set_fields;
    delete = table.remove;
    validate_password = λ name password s. compared password (scanned (table.by_username name s));
    count = table.count_rows;
  }

-- The rows of a query: a user without the hash of the password, or the error of a Scan.
abbrev UserRows : Type 0
UserRows = List (Result String User)

scan_users : UserRows → Option String → Result String (List User)
scan_users [] none = ok []
scan_users [] (some e) = err e
scan_users (err e ∷ rows) end = err e
scan_users (ok u ∷ rows) end = do users ← scan_users rows end; ok (u ∷ users)

-- List: a page of the users and the number of all; then `rows.Err()`.
pub list_users :
    Result String ℕ
    → (ℕ → ℕ → Result String (UserRows × Option String))
    → PaginationOpts
    → Result String (List User × ℕ)
unfolding scan_users normalize_opts
list_users count query opts = do
  let page = normalize_opts opts
  total ← count
  rows ← query page.limit page.offset
  users ← scan_users rows.0 rows.1
  ok (users, total)
