-- ===== src/Tests/Members.antt =====
-- A registration and logins in a table that is a list of users, with passwords as their own hashes.
use mathlib.Core.Option.{some-injective}
use compose_cockpit.Base.{
  map, filter, not, String, some, List, [], ◌∷◌, ◌≡◌, refl, same, same_self, length, if◌then◌else◌,
  subst,
}
use compose_cockpit.Base.Text.{byte_length}
use compose_cockpit.Domain.User.{User}
use compose_cockpit.Domain.Errors.{Code}
use compose_cockpit.Auth.Tokens.{generate_token_pair}
use compose_cockpit.Api.Reply.{success}
use compose_cockpit.Api.Accounts.{
  RegisterRequest, register_user, created, first_role, login, tokens_reply, bad_request,
  unauthorized_reply,
}
use compose_cockpit.Store.Users.{
  Found, row, no_rows, UsersTable, TableLaws, Bcrypt, BcryptLaws, user_repo, create_user, scanned,
}
use compose_cockpit.Store.Users.Logins.{login-register_user}
use compose_cockpit.Tests.Logins.{library, manager}

abbrev named : String → List User → Found
named name [] = no_rows
named name (u ∷ us) = let rest = named name us in if same u.username name then row u else rest

abbrev numbered : String → List User → Found
numbered id [] = no_rows
numbered id (u ∷ us) = let rest = numbered id us in if same u.id id then row u else rest

abbrev members : UsersTable (List User)
members = record {
  insert = λ u us. some (u ∷ us);
  by_id = numbered;
  by_username = named;
  set_fields = λ u us. some (map (λ w. if same w.id u.id then u else w) us);
  remove = λ id us. some (filter (λ u. not (same u.id id)) us);
  count_rows = λ us. some (length us);
}

members-laws : TableLaws members
members-laws = record { by_username-insert = found }
  where
    found :
        (u : User) (s s' : List User) → members.insert u s ≡ some s' → named u.username s' ≡ row u
    found u s s' e =
        subst (λ t. named u.username t ≡ row u) (some-injective (u ∷ s) s' e)
          (rw (same_self u.username) refl)

abbrev plain : Bcrypt
plain = record { generate = λ cost p. some p; accepts = λ hash p. same hash p }

plain-laws : BcryptLaws plain
plain-laws = record {
  accepts-generate = λ cost p hash e. rw (some-injective p hash e) (same_self hash);
}

abbrev of_ann : RegisterRequest
of_ann = record { username = "ann"; email = "ann@x"; password = "long enough" }

abbrev ann : User
ann = record { id = "u1"; username = "ann"; email = "ann@x"; password_hash = ""; role = "admin" }

abbrev after : List User
after = (register_user (user_repo members plain 10) "u1" (some of_ann) []).1

registered : (register_user (user_repo members plain 10) "u1" (some of_ann) []).0 ≡ success 201 ann
unfolding register_user created first_role byte_length user_repo create_user scanned
registered = refl

login-register_user_example :
    (login
        (user_repo members plain 10)
        library
        manager
        5
        (some (record { username = "ann"; password = "long enough" }))
        after
      ≡ tokens_reply (generate_token_pair library manager 5 ann))
    × (hash : String) × (plain.generate 10 "long enough" ≡ some hash)
    × (login
          (user_repo members plain 10)
          library
          manager
          5
          (some (record { username = "ann"; password = "wrong one" }))
          after
        ≡ (if same "wrong one" ""
            then bad_request "username and password are required"
            else if plain.accepts hash "wrong one"
            then tokens_reply (generate_token_pair library manager 5 ann)
            else unauthorized_reply Code.unauthorized "invalid credentials"))
login-register_user_example =
    login-register_user members plain 10 members-laws plain-laws library manager 5 "u1" of_ann []
      ann "wrong one" registered
