-- ===== src/Api/Accounts/Roles.antt =====
-- Which role a registration of internal/api/handlers/auth_handler.go gives.
use compose_cockpit.Base.{
  ℕ, arith, ◌≢◌, ◌⊎◌, ◌==◌, inr, inl, Bool-cases, ◌≤◌, String, Bool, true, false, ◌||◌, Option,
  none, some, ◌≡◌, refl, ap, sym, subst, same, ltb, ltb_false→le, if◌then◌else◌,
}
use compose_cockpit.Domain.User.{role_admin, role_viewer, User}
use compose_cockpit.Api.Reply.{Reply, success, failure}
use compose_cockpit.Base.Text.{byte_length}
use compose_cockpit.Api.Accounts.{
  UserRepository, RegisterRequest, bad_request, internal_error, first_role, new_user, created,
  register_new, register_user,
}

abbrev user_or : User → Reply User → User
user_or u (failure _ _ _ _) = u
user_or u (success status user) = user

abbrev number_or : ℕ → Option ℕ → ℕ
number_or m none = m
number_or m (some n) = n

zero_of : (n : ℕ) → (n == 0) ≡ true → n ≡ 0
zero_of n z = ground arith

not_zero : (n : ℕ) → (n == 0) ≡ false → n ≢ 0
not_zero n z = ground arith

module _ {S : Type 0} (users : UserRepository S) where
  created-success :
      (user u : User) (o : Option S) (s : S)
      → (created users user o s).0 ≡ success 201 u
      → (user ≡ u) × (o ≡ some (created users user o s).1)
  unfolding created internal_error
  created-success user u none s e = absurd cc
  created-success user u (some s') s e = (ap (user_or user) e, refl)

  first_role-cases :
      (o : Option ℕ)
      → (first_role users o ≡ role_admin) × (o ≡ some 0)
        ⊎ (first_role users o ≡ role_viewer) × (o ≢ some 0)
  unfolding first_role
  first_role-cases none = inr (refl, λ e. cc)
  first_role-cases (some n) = elim (Bool-cases (n == 0)) [
    | inl z ↦ inl (rw (z, first_role) refl, ap some (zero_of n z))
    | inr z ↦ inr (rw (z, first_role) refl, λ e. not_zero n z (ap (number_or n) e))
  ]

  -- What a registration that succeeds has done.
  pub record Registered (uuid : String) (req : RegisterRequest) (s s' : S) (user : User)
      : Type 0 where
    pub named : user.username ≡ req.username
    pub free : (users.get_by_username req.username s).0 ≡ none
    pub long : 8 ≤ byte_length req.password
    pub role :
        (user.role ≡ role_admin) × (users.count s ≡ some 0)
        ⊎ (user.role ≡ role_viewer) × (users.count s ≢ some 0)
    pub stored : users.create user req.password s ≡ some s'

  register_new-Registered :
      (uuid : String) (req : RegisterRequest) (s : S) (u : User) (o : Option User)
      → 8 ≤ byte_length req.password
      → (users.get_by_username req.username s).0 ≡ o
      → (register_new users uuid req o s).0 ≡ success 201 u
      → Registered uuid req s (register_new users uuid req o s).1 u
  unfolding register_new
  register_new-Registered uuid req s u (some existing) l f e = absurd cc
  register_new-Registered uuid req s u none l f e =
      let user = new_user users uuid req.username req.email (first_role users (users.count s)) in
      let (one, kept) = created-success user u (users.create user req.password s) s e in
      record {
        named = ap (λ z. z.username) (sym one);
        free = f;
        long = l;
        role =
            subst
              (λ r.
                (r ≡ role_admin) × (users.count s ≡ some 0)
                ⊎ (r ≡ role_viewer) × (users.count s ≢ some 0))
              (ap (λ z. z.role) one) (first_role-cases (users.count s));
        stored =
            subst
              (λ z.
                users.create z req.password s
                ≡ some (created users user (users.create user req.password s) s).1)
              one kept;
      }

  -- The two checks before.
  checked-Registered :
      (uuid : String) (req : RegisterRequest) (s : S) (u : User) (blank short : Bool)
      → ltb (byte_length req.password) 8 ≡ short
      → (if blank
          then (bad_request "username, email and password are required", s)
          else if short
          then (bad_request "password must be at least 8 characters", s)
          else register_new users uuid req (users.get_by_username req.username s).0 s).0
        ≡ success 201 u
      → Registered uuid req s
          (if blank
            then (bad_request "username, email and password are required", s)
            else if short
            then (bad_request "password must be at least 8 characters", s)
            else register_new users uuid req (users.get_by_username req.username s).0 s).1
          u
  unfolding bad_request
  checked-Registered uuid req s u true short l e = absurd cc
  checked-Registered uuid req s u false true l e = absurd cc
  checked-Registered uuid req s u false false l e =
      register_new-Registered uuid req s u (users.get_by_username req.username s).0
        (ltb_false→le (byte_length req.password) 8 l) refl e

  -- A registration that succeeds has stored a user of the given name, which was free, with a password of at least
  -- eight bytes, as the administrator exactly if the store counted no user, and as a viewer otherwise.
  pub register_user-Registered :
      (uuid : String) (req : RegisterRequest) (s : S) (u : User)
      → (register_user users uuid (some req) s).0 ≡ success 201 u
      → Registered uuid req s (register_user users uuid (some req) s).1 u
  unfolding register_user
  register_user-Registered uuid req s u e =
      checked-Registered uuid req s u
        (same req.username "" || same req.email "" || same req.password "")
        (ltb (byte_length req.password) 8) refl e
