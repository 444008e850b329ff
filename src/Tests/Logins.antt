-- ===== src/Tests/Logins.antt =====
-- A login with a library that writes a token as its claims.
use Prim.Native.Nat.{ℕ}
use compose_cockpit.Base.{
  Bool, ◌&&◌, ◌==◌, eq_iff, inl, inr, ◌⊎◌, ap, sym, ◌∙◌, ◌<◌, ◌≤◌, String, true, false, Option,
  none, some, ◌≡◌, refl, same, ltb, if◌then◌else◌, arith,
}
use compose_cockpit.Base.Text.{cat}
use compose_cockpit.Base.Text.Laws.{sep}
use compose_cockpit.Domain.User.{User, role_operator}
use compose_cockpit.Auth.Tokens.{
  Payload, Jwt, JwtLaws, JwtManager, TokenPair, invalid_token, passes, generate_token_pair,
  validate_refresh_token, authenticate,
}
use compose_cockpit.Auth.Tokens.Lifetimes.{authenticate-generate_token_pair}

abbrev ann : User
ann = record {
  id = "u1";
  username = "ann";
  email = "ann@x";
  password_hash = "";
  role = role_operator;
}

abbrev pub manager : JwtManager
manager = record { secret = "s"; access_token_ttl = 15; refresh_token_ttl = 100 }

-- The claims of the tokens of Ann's login at time 5.
abbrev access_claims : Payload
access_claims = record {
  subject = "u1";
  issued_at = 5;
  expires_at = 20;
  issuer = "compose-cockpit";
  uid = "u1";
  usr = "ann";
  role = "operator";
}

abbrev refresh_claims : Payload
refresh_claims = record {
  subject = "u1";
  issued_at = 5;
  expires_at = 105;
  issuer = "compose-cockpit";
  uid = "";
  usr = "";
  role = "";
}

abbrev same_payload : Payload → Payload → Bool
same_payload p q =
    same p.subject q.subject
    && (p.issued_at == q.issued_at)
    && (p.expires_at == q.expires_at)
    && same p.issuer q.issuer
    && same p.uid q.uid
    && same p.usr q.usr
    && same p.role q.role

payload_of :
    {a a' d d' e e' f f' g g' : String} {b b' c c' : ℕ}
    → a ≡ a'
    → b ≡ b'
    → c ≡ c'
    → d ≡ d'
    → e ≡ e'
    → f ≡ f'
    → g ≡ g'
    → ◌≡◌ {A = Payload}
        (record {
          subject = a;
          issued_at = b;
          expires_at = c;
          issuer = d;
          uid = e;
          usr = f;
          role = g;
        })
        (record {
          subject = a';
          issued_at = b';
          expires_at = c';
          issuer = d';
          uid = e';
          usr = f';
          role = g';
        })
payload_of p q r s t u v = rw (p, q, r, s, t, u, v) refl

eq_of_same_payload : (p q : Payload) → same_payload p q ≡ true → p ≡ q
eq_of_same_payload p q e =
    payload_of (ground (arith, eq_iff p.subject q.subject)) (ground arith) (ground arith)
      (ground (arith, eq_iff p.issuer q.issuer)) (ground (arith, eq_iff p.uid q.uid))
      (ground (arith, eq_iff p.usr q.usr)) (ground (arith, eq_iff p.role q.role))

-- A library that signs these two and no other, with the manager's secret.
abbrev sign : String → Payload → Option String
sign secret p =
    if same secret "s"
    then (if same_payload p access_claims
        then some "A"
        else if same_payload p refresh_claims
        then some "R"
        else none)
    else none

abbrev until : ℕ → Payload → Option Payload
until now p = if ltb now p.expires_at then some p else none

abbrev claims_in : ℕ → String → Option Payload
claims_in now token =
    if same token "A"
    then until now access_claims
    else if same token "R"
    then until now refresh_claims
    else none

abbrev read_with : Option String → ℕ → String → Option Payload
read_with none now token = none
read_with (some secret) now token = if same secret "s" then claims_in now token else none

abbrev pub library : Jwt
library = record {
  signed_string = sign;
  parse_with_claims = λ key now token. read_with (key true) now token;
}

abbrev text_of : Option String → String
text_of none = ""
text_of (some t) = t

-- What is signed is one of the two.
chosen :
    (a b c : Bool) (token : String)
    → (if a then (if b then some "A" else if c then some "R" else none) else none) ≡ some token
    → (a ≡ true) × ((token ≡ "A") × (b ≡ true) ⊎ (token ≡ "R") × (c ≡ true))
chosen true true c token e = (refl, inl (ap text_of (sym e), refl))
chosen true false true token e = (refl, inr (ap text_of (sym e), refl))
chosen true false false token e = absurd cc
chosen false b c token e = absurd cc

which :
    (p : Payload) (token : String)
    → (token ≡ "A") × (same_payload p access_claims ≡ true)
      ⊎ (token ≡ "R") × (same_payload p refresh_claims ≡ true)
    → (token ≡ "A") × (p ≡ access_claims) ⊎ (token ≡ "R") × (p ≡ refresh_claims)
which p token (inl (t, c)) = inl (t, eq_of_same_payload p access_claims c)
which p token (inr (t, c)) = inr (t, eq_of_same_payload p refresh_claims c)

sign_cases :
    (secret : String) (p : Payload) (token : String)
    → sign secret p ≡ some token
    → (same secret "s" ≡ true)
      × ((token ≡ "A") × (p ≡ access_claims) ⊎ (token ≡ "R") × (p ≡ refresh_claims))
sign_cases secret p token e =
    let (s, c) =
      chosen (same secret "s") (same_payload p access_claims) (same_payload p refresh_claims) token
        e in
    (s, which p token c)

-- The two tokens are read as the library read them.
read_token :
    (secret : String) (p : Payload) (token : String) (key : Option String) (now : ℕ)
    → sign secret p ≡ some token
    → key ≡ some secret
    → read_with key now token ≡ until now p
read_token secret p token key now signed k =
    let (s, cases) = sign_cases secret p token signed in
    elim cases [ inl (t, c) ↦ rw (k, s, t, c) refl | inr (t, c) ↦ rw (k, s, t, c) refl ]

until_before : (now : ℕ) (p : Payload) → now < p.expires_at → until now p ≡ some p
until_before now p l = ground arith

until_after : (now : ℕ) (p : Payload) → p.expires_at ≤ now → until now p ≡ none
until_after now p l = ground arith

library_laws : JwtLaws library
library_laws = record {
  reads = λ secret p token key now signed k l.
      read_token secret p token (key true) now signed k ∙ until_before now p l;
  expires = λ secret p token key now signed k l.
      read_token secret p token (key true) now signed k ∙ until_after now p l;
}

abbrev pair : TokenPair
pair = record { access_token = "A"; refresh_token = "R"; expires_at = 20 }

logged_in : generate_token_pair library manager 5 ann ≡ some pair
unfolding generate_token_pair
logged_in = refl

authenticate-generate_token_pair_example :
    (authenticate library manager 10 (cat "Bearer" (sep " " "A")) ≡ (
      if ltb 10 20
      then passes (record { user_id = "u1"; role = role_operator })
      else invalid_token))
    × (validate_refresh_token library manager 10 "R" ≡ (if ltb 10 105 then some "u1" else none))
authenticate-generate_token_pair_example =
    authenticate-generate_token_pair library library_laws manager 5 10 ann pair logged_in
