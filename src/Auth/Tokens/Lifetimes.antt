-- ===== src/Auth/Tokens/Lifetimes.antt =====
-- How long the tokens of internal/auth/jwt.go are accepted, and for what.
use text.Mathlib.TextLemmas.{cons-append}
use compose_cockpit.Base.{
  ℕ, ◌+◌, String, Bool, true, false, Option, none, some, ◌≡◌, refl, sym, ap, ◌∙◌, same, same-false,
  [], ◌∷◌, ltb, ltb→lt, ltb_false→le, Bool-cases, inl, inr, if◌then◌else◌,
}
use compose_cockpit.Base.Text.{cat, has, split_n, equal_fold}
use compose_cockpit.Base.Text.Laws.{sep, cut-cat}
use compose_cockpit.Domain.User.{User}
use compose_cockpit.Auth.Tokens.{
  Payload, Jwt, JwtLaws, JwtManager, TokenPair, invalid_token, passes, access_payload,
  refresh_payload, generate_token_pair, signed_pair, validate_access_token, validate_refresh_token,
  validated, bearer, key_of, authenticate,
}

abbrev is_text : String → Bool
is_text String.[] = false
is_text (String.◌∷◌ c s) = true

header_there : (token : String) → same (cat "Bearer" (sep " " token)) "" ≡ false
header_there token = same-false (cat "Bearer" (sep " " token)) "" (λ e.
    let f : true ≡ false = ap is_text (sym (cons-append "B" "earer" (sep " " token)) ∙ e) in cc)

abbrev access_of : Option TokenPair → Option String
access_of none = none
access_of (some pair) = some pair.access_token

abbrev refresh_of : Option TokenPair → Option String
refresh_of none = none
refresh_of (some pair) = some pair.refresh_token

module _ (jwt : Jwt) (laws : JwtLaws jwt) (m : JwtManager) where
  signed_pair-some :
      (expires_at : ℕ) (access refresh : Option String) (pair : TokenPair)
      → signed_pair jwt m expires_at access refresh ≡ some pair
      → (access ≡ some pair.access_token) × (refresh ≡ some pair.refresh_token)
  unfolding signed_pair
  signed_pair-some x none refresh pair e = absurd cc
  signed_pair-some x (some access) none pair e = absurd cc
  signed_pair-some x (some access) (some refresh) pair e = (ap access_of e, ap refresh_of e)

  -- The two tokens of a pair are signed with the manager's secret.
  generate_token_pair-signed :
      (now : ℕ) (user : User) (pair : TokenPair)
      → generate_token_pair jwt m now user ≡ some pair
      → (jwt.signed_string m.secret (access_payload jwt m now user) ≡ some pair.access_token)
        × (jwt.signed_string m.secret (refresh_payload jwt m now user) ≡ some pair.refresh_token)
  unfolding generate_token_pair
  generate_token_pair-signed now user pair e =
      signed_pair-some (now + m.access_token_ttl)
        (jwt.signed_string m.secret (access_payload jwt m now user))
        (jwt.signed_string m.secret (refresh_payload jwt m now user)) pair e

  -- A signed token is read until it expires.
  parse_with_claims-signed :
      (p : Payload) (token : String) (now : ℕ)
      → jwt.signed_string m.secret p ≡ some token
      → jwt.parse_with_claims (key_of jwt m) now token
        ≡ (if ltb now p.expires_at then some p else none)
  parse_with_claims-signed p token now signed = elim (Bool-cases (ltb now p.expires_at)) [
    | inl t ↦
        rw t
          (laws.reads m.secret p token (key_of jwt m) now signed refl (ltb→lt now p.expires_at t))
    | inr f ↦ rw f (
        laws.expires m.secret p token (key_of jwt m) now signed refl
          (ltb_false→le now p.expires_at f))
  ]

  validate_refresh_token-signed :
      (p : Payload) (token : String) (now : ℕ)
      → jwt.signed_string m.secret p ≡ some token
      → validate_refresh_token jwt m now token
        ≡ (if ltb now p.expires_at then some p.subject else none)
  unfolding validate_refresh_token
  validate_refresh_token-signed p token now signed = elim (Bool-cases (ltb now p.expires_at)) [
    | inl t ↦ rw (parse_with_claims-signed p token now signed, validate_refresh_token, t) refl
    | inr f ↦ rw (parse_with_claims-signed p token now signed, validate_refresh_token, f) refl
  ]

  validate_access_token-signed :
      (p : Payload) (token : String) (now : ℕ)
      → jwt.signed_string m.secret p ≡ some token
      → validate_access_token jwt m now token
        ≡ (if ltb now p.expires_at then some (record { user_id = p.uid; role = p.role }) else none)
  unfolding validate_access_token
  validate_access_token-signed p token now signed = elim (Bool-cases (ltb now p.expires_at)) [
    | inl t ↦ rw (parse_with_claims-signed p token now signed, validate_access_token, t) refl
    | inr f ↦ rw (parse_with_claims-signed p token now signed, validate_access_token, f) refl
  ]

  -- A token behind "Bearer" is the one that is validated.
  authenticate-bearer :
      (now : ℕ) (token : String)
      → authenticate jwt m now (cat "Bearer" (sep " " token))
        ≡ validated jwt m (validate_access_token jwt m now token)
  unfolding authenticate bearer equal_fold split_n has
  authenticate-bearer now token =
      let parts : split_n " " 2 (cat "Bearer" (sep " " token)) ≡ "Bearer" ∷ token ∷ [] =
        rw (split_n, cut-cat " " "Bearer" token refl) refl in
      rw (header_there token, parts, authenticate, bearer) refl

  -- A request with "Bearer" and the access token of a login passes as the user and with his role until
  -- the token expires and is refused from then on, and the refresh token names the user until it expires.
  pub authenticate-generate_token_pair :
      (now later : ℕ) (user : User) (pair : TokenPair)
      → generate_token_pair jwt m now user ≡ some pair
      → (authenticate jwt m later (cat "Bearer" (sep " " pair.access_token)) ≡ (
          if ltb later (now + m.access_token_ttl)
          then passes (record { user_id = user.id; role = user.role })
          else invalid_token))
        × (validate_refresh_token jwt m later pair.refresh_token
            ≡ (if ltb later (now + m.refresh_token_ttl) then some user.id else none))
  unfolding validated access_payload refresh_payload
  authenticate-generate_token_pair now later user pair e =
      let (access, refresh) = generate_token_pair-signed now user pair e in
      let read =
        validate_access_token-signed (access_payload jwt m now user) pair.access_token later
          access in
      (
        elim (Bool-cases (ltb later (now + m.access_token_ttl))) [
          | inl t ↦ rw (authenticate-bearer later pair.access_token, read, t) refl
          | inr f ↦ rw (authenticate-bearer later pair.access_token, read, f) refl
        ],
        validate_refresh_token-signed (refresh_payload jwt m now user) pair.refresh_token later
            refresh,
      )

  -- Either token is accepted in the place of the other until it expires: an access token names the user
  -- as a refresh token does, and a refresh token passes as a user without a name and without a role.
  validate_token-swapped :
      (now later : ℕ) (user : User) (pair : TokenPair)
      → generate_token_pair jwt m now user ≡ some pair
      → (validate_refresh_token jwt m later pair.access_token
          ≡ (if ltb later (now + m.access_token_ttl) then some user.id else none))
        × (validate_access_token jwt m later pair.refresh_token ≡ (
            if ltb later (now + m.refresh_token_ttl)
            then some (record { user_id = ""; role = "" })
            else none))
  unfolding access_payload refresh_payload
  validate_token-swapped now later user pair e =
      let (access, refresh) = generate_token_pair-signed now user pair e in
      (
        validate_refresh_token-signed (access_payload jwt m now user) pair.access_token later
            access,
        validate_access_token-signed (refresh_payload jwt m now user) pair.refresh_token later
            refresh,
      )
