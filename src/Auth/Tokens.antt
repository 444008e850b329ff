-- ===== src/Auth/Tokens.antt =====
-- internal/auth/jwt.go and Middleware of internal/auth/middleware.go. The JWT library is a parameter:
-- how a token is signed and read is its own, and what its documentation promises is stated as laws.
pub mod Lifetimes
use compose_cockpit.Base.{
  ℕ, ◌+◌, ◌<◌, ◌≤◌, String, Bool, true, false, not, Option, none, some, List, [], ◌∷◌, ◌≡◌, same,
  if◌then◌else◌,
}
use compose_cockpit.Base.Text.{split_n, equal_fold}
use compose_cockpit.Domain.User.{User, Role}
use compose_cockpit.Auth.Access.{Claims}

-- The claims of a token; a claim that the token lacks reads as "".
pub record Payload : Type 0 where
  pub subject : String
  pub issued_at : ℕ
  pub expires_at : ℕ
  pub issuer : String
  pub uid : String
  pub usr : String
  pub role : Role

-- `SignedString` of an HS256 token, and `jwt.ParseWithClaims` at a time: the function that it takes
-- gives the key, by whether the token's method is HMAC.
pub record Jwt : Type 0 where
  pub signed_string : String → Payload → Option String
  pub parse_with_claims : (Bool → Option String) → ℕ → String → Option Payload

-- A token is read with the key that signed it until it expires, and not afterwards.
pub record JwtLaws (jwt : Jwt) : Type 0 where
  pub reads :
      (secret : String) (p : Payload) (token : String) (key : Bool → Option String) (now : ℕ)
      → jwt.signed_string secret p ≡ some token
      → key true ≡ some secret
      → now < p.expires_at
      → jwt.parse_with_claims key now token ≡ some p
  pub expires :
      (secret : String) (p : Payload) (token : String) (key : Bool → Option String) (now : ℕ)
      → jwt.signed_string secret p ≡ some token
      → key true ≡ some secret
      → p.expires_at ≤ now
      → jwt.parse_with_claims key now token ≡ none

pub record JwtManager : Type 0 where
  pub secret : String
  pub access_token_ttl : ℕ
  pub refresh_token_ttl : ℕ

pub record TokenPair : Type 0 where
  pub access_token : String
  pub refresh_token : String
  pub expires_at : ℕ

-- What Middleware answers: it passes the claims on, or it ends the request.
pub data Authenticated : Type 0 where
  missing_header invalid_format invalid_token : Authenticated
  passes : Claims → Authenticated

module _ (jwt : Jwt) (m : JwtManager) where
  unfoldable pub access_payload : ℕ → User → Payload
  access_payload now user = record {
    subject = user.id;
    issued_at = now;
    expires_at = now + m.access_token_ttl;
    issuer = "compose-cockpit";
    uid = user.id;
    usr = user.username;
    role = user.role;
  }

  unfoldable pub refresh_payload : ℕ → User → Payload
  refresh_payload now user = record {
    subject = user.id;
    issued_at = now;
    expires_at = now + m.refresh_token_ttl;
    issuer = "compose-cockpit";
    uid = "";
    usr = "";
    role = "";
  }

  -- The pair of two tokens, if both were signed.
  signed_pair : ℕ → Option String → Option String → Option TokenPair
  signed_pair expires_at none refresh = none
  signed_pair expires_at (some access) none = none
  signed_pair expires_at (some access) (some refresh) =
      some (record { access_token = access; refresh_token = refresh; expires_at = expires_at })

  -- GenerateTokenPair; `none` is an error of the library.
  unfoldable pub generate_token_pair : ℕ → User → Option TokenPair
  unfolding access_payload refresh_payload signed_pair
  generate_token_pair now user =
      signed_pair (now + m.access_token_ttl) (jwt.signed_string m.secret (access_payload now user))
        (jwt.signed_string m.secret (refresh_payload now user))

  -- The function that both validations give to the library.
  abbrev key_of : Bool → Option String
  key_of hmac = if hmac then some m.secret else none

  -- ValidateAccessToken
  unfoldable pub validate_access_token : ℕ → String → Option Claims
  validate_access_token now token = elim (jwt.parse_with_claims key_of now token) [
    | none ↦ none
    | some p ↦ some (record { user_id = p.uid; role = p.role })
  ]

  -- ValidateRefreshToken: the subject.
  unfoldable pub validate_refresh_token : ℕ → String → Option String
  validate_refresh_token now token = elim (jwt.parse_with_claims key_of now token) [
    | none ↦ none
    | some p ↦ some p.subject
  ]

  validated : Option Claims → Authenticated
  validated none = invalid_token
  validated (some c) = passes c

  bearer : ℕ → List String → Authenticated
  unfolding validate_access_token validated
  bearer now (scheme ∷ token ∷ []) =
      if equal_fold scheme "bearer"
      then validated (validate_access_token now token)
      else invalid_format
  bearer now _ = invalid_format

  -- Middleware, by the Authorization header.
  unfoldable pub authenticate : ℕ → String → Authenticated
  unfolding bearer
  authenticate now header =
      if same header "" then missing_header else bearer now (split_n " " 2 header)
