-- ===== src/Store/Users/Logins.antt =====
-- Logins of internal/api/handlers/auth_handler.go with the repository of internal/store/user_repo.go.
use compose_cockpit.Base.{
  ℕ, String, Bool, true, false, ◌||◌, some, ◌≡◌, refl, subst, ◌∙◌, same, if◌then◌else◌,
  Option-cases, Bool-cases, inl, inr, arith,
}
use compose_cockpit.Domain.Errors.{Code}
use compose_cockpit.Domain.User.{User}
use compose_cockpit.Auth.Tokens.{Jwt, JwtManager, generate_token_pair}
use compose_cockpit.Api.Reply.{Reply, success}
use compose_cockpit.Api.Accounts.{
  RegisterRequest, bad_request, login, login_user, register_user, tokens_reply, unauthorized_reply,
}
use compose_cockpit.Api.Accounts.Roles.{register_user-Registered}
use compose_cockpit.Store.Users.{
  UsersTable, TableLaws, Bcrypt, BcryptLaws, row, create_user, compared, scanned, user_repo,
}

module _ {S : Type 0} (table : UsersTable S) (bcrypt : Bcrypt) (cost : ℕ) where
  -- A creation that succeeds has stored the user with the hash of the password.
  create_user-some :
      (user : User) (password : String) (s s' : S)
      → create_user table bcrypt cost user password s ≡ some s'
      → (hash : String) × (bcrypt.generate cost password ≡ some hash)
        × (table.insert (record user { password_hash = hash }) s ≡ some s')
  unfolding create_user
  create_user-some user password s s' e = elim (Option-cases (bcrypt.generate cost password)) [
    | inl f ↦ absurd (ground arith)
    | inr (hash, f) ↦ (hash, f, ground arith)
  ]

  -- What a login comes to when the query finds the row.
  login-row :
      (jwt : Jwt) (m : JwtManager) (now : ℕ) (name password : String) (u : User) (s : S)
      → same name "" ≡ false
      → table.by_username name s ≡ row u
      → login
          (user_repo table bcrypt cost)
          jwt
          m
          now
          (some (record { username = name; password = password }))
          s
        ≡ (if same password ""
            then bad_request "username and password are required"
            else if bcrypt.accepts u.password_hash password
            then tokens_reply (generate_token_pair jwt m now u)
            else unauthorized_reply Code.unauthorized "invalid credentials")
  unfolding login login_user user_repo compared scanned
  login-row jwt m now name password u s filled found = elim (Bool-cases (same password "")) [
    | inl b ↦ rw (filled, b) refl
    | inr b ↦ elim (Bool-cases (bcrypt.accepts u.password_hash password)) [
      | inl a ↦ rw (filled, b, found, a) refl
      | inr a ↦ rw (filled, b, found, a) refl
    ]
  ]

filled-of_success :
    {S : Type 0} (blank : Bool) (message : String) (s : S) (x : Reply User × S) (u : User)
    → (if blank then (bad_request message, s) else x).0 ≡ success 201 u
    → blank ≡ false
unfolding bad_request
filled-of_success true message s x u e = absurd (cc)
filled-of_success false message s x u e = refl

module _ {S : Type 0} (table : UsersTable S) (bcrypt : Bcrypt) (cost : ℕ)
    (table_laws : TableLaws table) (bcrypt_laws : BcryptLaws bcrypt) where
  -- Who has registered can log in: with his password the answer is a pair of tokens for the user that
  -- was registered. Any other password is answered the same way if bcrypt accepts it for the hash that
  -- was stored, and refused otherwise; an empty one is a bad request.
  pub login-register_user :
      (jwt : Jwt) (m : JwtManager) (now : ℕ) (uuid : String) (req : RegisterRequest) (s : S)
      (u : User) (password : String)
      → (register_user (user_repo table bcrypt cost) uuid (some req) s).0 ≡ success 201 u
      → let s' = (register_user (user_repo table bcrypt cost) uuid (some req) s).1 in
        let try = λ (p : String).
          login
            (user_repo table bcrypt cost)
            jwt
            m
            now
            (some (record { username = req.username; password = p }))
            s' in
        (try req.password ≡ tokens_reply (generate_token_pair jwt m now u))
        × (hash : String) × (bcrypt.generate cost req.password ≡ some hash)
        × (try password ≡ (
            if same password ""
            then bad_request "username and password are required"
            else if bcrypt.accepts hash password
            then tokens_reply (generate_token_pair jwt m now u)
            else unauthorized_reply Code.unauthorized "invalid credentials"))
  unfolding register_user user_repo create_user login generate_token_pair
  login-register_user jwt m now uuid req s u password e =
      let repo = user_repo table bcrypt cost in
      let s' = (register_user repo uuid (some req) s).1 in
      let r = register_user-Registered repo uuid req s u e in
      let filled =
        filled-of_success (same req.username "" || same req.email "" || same req.password "")
          "username, email and password are required" s _ u e in
      let (hash, hashed, stored) =
        create_user-some table bcrypt cost u req.password s s' r.stored in
      let user : User = record u { password_hash = hash } in
      let found : table.by_username req.username s' ≡ row user =
        subst (λ n. table.by_username n s' ≡ row user) r.named
          (table_laws.by_username-insert user s s' stored) in
      let name : same req.username "" ≡ false = ground arith in
      let given : same req.password "" ≡ false = ground arith in
      let accepted = bcrypt_laws.accepts-generate cost req.password hash hashed in
      (
        login-row table bcrypt cost jwt m now req.username req.password user s' name found
            ∙ rw (given, accepted) refl,
        hash,
        hashed,
        login-row table bcrypt cost jwt m now req.username password user s' name found,
      )
