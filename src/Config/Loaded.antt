-- ===== src/Config/Loaded.antt =====
-- When Load of internal/config/config.go succeeds.
use compose_cockpit.Base.{
  String, ap, true, ◌↔◌, ◌≤◌, eq_of_same, arith, false, ◌≡◌, refl, same, ltb, inl, inr,
  if◌then◌else◌, Bool-cases,
}
use compose_cockpit.Base.Results.{ok, err, ok-injective}
use compose_cockpit.Base.Text.{byte_length}
use compose_cockpit.Config.{
  Config, Environment, env_or_default, from_env, validate, load_config, no_secret, short_secret,
}

-- The root directory has a default, so it is never missing.
root_dir_there :
    (env : Environment) → same (env_or_default env "COMPOSE_ROOT" "/data/projects") "" ≡ false
unfolding env_or_default
root_dir_there env = elim (Bool-cases (same (env.getenv "COMPOSE_ROOT") "")) [
  | inl e ↦ rw (e, env_or_default) refl
  | inr e ↦ rw (e, env_or_default) e
]

-- Load depends on the secret alone: it succeeds exactly if the secret has 32 bytes or more, and the
-- complaint about the root directory never comes.
load_config-cases :
    (env : Environment)
    → load_config env ≡ (
        if same (env.getenv "JWT_SECRET") ""
        then err no_secret
        else if ltb (byte_length (env.getenv "JWT_SECRET")) 32
        then err short_secret
        else ok (from_env env))
unfolding load_config validate from_env
load_config-cases env = elim (Bool-cases (same (env.getenv "JWT_SECRET") "")) [
  | inl e ↦ rw e refl
  | inr e ↦ elim (Bool-cases (ltb (byte_length (env.getenv "JWT_SECRET")) 32)) [
    | inl f ↦ rw (e, f) refl
    | inr f ↦ rw (e, f, root_dir_there env) refl
  ]
]

-- No bytes.
empty_short : (s : String) → same s "" ≡ true → byte_length s ≡ 0
unfolding byte_length
empty_short s e = ap byte_length (eq_of_same s "" e)

pub load_config-secret :
    (env : Environment) (cfg : Config)
    → (load_config env ≡ ok cfg)
      ↔ (32 ≤ byte_length (env.getenv "JWT_SECRET")) × (from_env env ≡ cfg)
load_config-secret env cfg =
    rw (load_config-cases env) elim (Bool-cases (same (env.getenv "JWT_SECRET") "")) [
      | inl e ↦
          let short = empty_short (env.getenv "JWT_SECRET") e in
          rw (e) (λ h. absurd cc, λ (long, same_config). ground arith)
      | inr e ↦ elim (Bool-cases (ltb (byte_length (env.getenv "JWT_SECRET")) 32)) [
        | inl f ↦ rw (e, f) (λ h. absurd cc, λ (long, same_config). ground arith)
        | inr f ↦
            rw (e, f) (λ h. (ground arith, ok-injective (from_env env) cfg h), λ (long, c). ap ok c)
      ]
    ]
