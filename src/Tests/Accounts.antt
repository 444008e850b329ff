-- ===== src/Tests/Accounts.antt =====
-- Registrations in a store that is a list of users, and pages of a list.
use compose_cockpit.Base.{
  ◌≤◌, ◌<◌, String, false, Option, none, some, List, [], ◌∷◌, ◌≡◌, refl, same, length,
  if◌then◌else◌,
}
use compose_cockpit.Domain.User.{User}
use compose_cockpit.Api.Reply.{success}
use compose_cockpit.Api.Pages.{parse_pagination, normalize_opts}
use compose_cockpit.Api.Pages.Bounds.{normalize_opts-parse_pagination}
use compose_cockpit.Base.Text.{byte_length}
use compose_cockpit.Api.Accounts.{
  UserRepository, RegisterRequest, created, first_role, register_user,
}
use compose_cockpit.Api.Accounts.Roles.{Registered, register_user-Registered}

abbrev named : String → List User → Option User
named name [] = none
named name (u ∷ us) = let rest = named name us in if same u.username name then some u else rest

abbrev list_store : UserRepository (List User)
list_store = record {
  create = λ user password us. some (user ∷ us);
  get_by_id = λ id us. (none, false);
  get_by_username = λ name us. (named name us, false);
  update = λ user us. some us;
  delete = λ id us. some us;
  validate_password = λ name password us. (named name us, false);
  count = λ us. some (length us);
}

abbrev of_ann : RegisterRequest
of_ann = record { username = "ann"; email = "ann@x"; password = "long enough" }

abbrev first_user : User
first_user = record {
  id = "u1";
  username = "ann";
  email = "ann@x";
  password_hash = "";
  role = "admin";
}

abbrev after : List User
after = (register_user list_store "u1" (some of_ann) []).1

first_registered : (register_user list_store "u1" (some of_ann) []).0 ≡ success 201 first_user
unfolding register_user created first_role byte_length
first_registered = refl

register_user-Registered_example : Registered list_store "u1" of_ann [] after first_user
register_user-Registered_example =
    register_user-Registered list_store "u1" of_ann [] first_user first_registered

normalize_opts-parse_pagination_example :
    (1 ≤ (normalize_opts (parse_pagination "500" "-1")).limit)
    × ((normalize_opts (parse_pagination "500" "-1")).limit ≤ 100)
    × ((normalize_opts (parse_pagination "500" "-1")).offset < 9223372036854775808)
    × (normalize_opts (normalize_opts (parse_pagination "500" "-1"))
        ≡ normalize_opts (parse_pagination "500" "-1"))
normalize_opts-parse_pagination_example = normalize_opts-parse_pagination "500" "-1"
