-- ===== src/Cockpit/Startup.antt =====
-- Which runs of cmd/cockpit/main.go serve requests, and what they close.
use compose_cockpit.Base.Text.{byte_length}
use compose_cockpit.Config.Loaded.{load_config-secret}
use compose_cockpit.Base.{◌≤◌, String, none, List, [], ◌∷◌, ◌≡◌, ◌↔◌, refl, ap, ◌∙◌, In, arith}
use compose_cockpit.Base.Results.{Result, ok, err, ok-injective}
use compose_cockpit.Config.{from_env, Config, ServerConfig, ConfigError, Environment, load_config}
use compose_cockpit.Cockpit.{
  Step, listen, close_db, close_client, Run, step, exit, returned, Answers, main, run_of,
  configured, with_db, with_client, serving, listening, stopped, deferred, or_exit, noted,
  set_log_level,
}

abbrev pub steps_of : Run → List Step
steps_of (step s run) = s ∷ steps_of run
steps_of exit = []
steps_of returned = []

abbrev pub Returns : Run → Type 0
Returns (step s run) = Returns run
Returns exit = ⊥
Returns returned = Unit

-- A server whose answers of the start are all without an error.
abbrev pub Starts : Answers → Type 0
Starts a = (a.new_db ≡ none) × (a.auto_migrate ≡ none) × (a.new_client ≡ none) × (a.ping ≡ none)

-- With a configuration.
configured-listen :
    (cfg : Config) (a : Answers) (addr : ServerConfig)
    → In (listen addr) (steps_of (configured cfg a)) ↔ (cfg.server ≡ addr) × Starts a
unfolding configured with_db with_client serving listening stopped deferred noted or_exit
    set_log_level
configured-listen cfg a addr = ground arith

configured-Returns :
    (cfg : Config) (a : Answers) → Returns (configured cfg a) ↔ Starts a × (a.serve ≡ none)
unfolding configured with_db with_client serving listening stopped deferred noted or_exit
    set_log_level
configured-Returns cfg a = ground arith

configured-close_client :
    (cfg : Config) (a : Answers)
    → In close_client (steps_of (configured cfg a)) ↔ Starts a × (a.serve ≡ none)
unfolding configured with_db with_client serving listening stopped deferred noted or_exit
    set_log_level
configured-close_client cfg a = ground arith

configured-close_db :
    (cfg : Config) (a : Answers)
    → In close_db (steps_of (configured cfg a)) ↔ Starts a × (a.serve ≡ none)
unfolding configured with_db with_client serving listening stopped deferred noted or_exit
    set_log_level
configured-close_db cfg a = ground arith

run_of-listen :
    (text : ConfigError → String) (a : Answers) (addr : ServerConfig)
    (r : Result ConfigError Config)
    → (In (listen addr) (steps_of (run_of text a r))
        ↔ (cfg : Config) × (r ≡ ok cfg) × (cfg.server ≡ addr) × Starts a)
      × (In close_client (steps_of (run_of text a r)) ↔ Returns (run_of text a r))
      × (In close_db (steps_of (run_of text a r)) ↔ Returns (run_of text a r))
      × (Returns (run_of text a r) ↔ (cfg : Config) × (r ≡ ok cfg) × Starts a × (a.serve ≡ none))
unfolding run_of or_exit
run_of-listen text a addr (ok cfg) =
    let listens = configured-listen cfg a addr in
    let returns = configured-Returns cfg a in
    let client = configured-close_client cfg a in
    let db = configured-close_db cfg a in
    (
      (
        λ h. let (at, s) = listens.0 h in (cfg, refl, at, s),
        λ (x, e, at, s). listens.1 (ap (λ c. c.server) (ok-injective cfg x e) ∙ at, s),
      ),
      (λ h. returns.1 (client.0 h), λ h. client.1 (returns.0 h)),
      (λ h. returns.1 (db.0 h), λ h. db.1 (returns.0 h)),
      (
        λ h. let (s, serve) = returns.0 h in (cfg, refl, s, serve),
        λ (x, e, s, serve). returns.1 (s, serve),
      ),
    )
run_of-listen text a addr (err f) = ground arith

-- The server listens exactly if the secret has 32 bytes or more and the database, the migrations, the
-- Docker client and the ping have all answered without an error, whatever the first scan gives; and it
-- listens where the environment says. The run returns exactly if besides the server does not fail before
-- a signal comes; the Docker client and the database are closed exactly in the runs that return.
pub main-listen :
    (env : Environment) (text : ConfigError → String) (a : Answers) (addr : ServerConfig)
    → let Secret = 32 ≤ byte_length (env.getenv "JWT_SECRET") in
      (In (listen addr) (steps_of (main env text a))
        ↔ Secret × ((from_env env).server ≡ addr) × Starts a)
      × (Returns (main env text a) ↔ Secret × Starts a × (a.serve ≡ none))
      × (In close_client (steps_of (main env text a)) ↔ Returns (main env text a))
      × (In close_db (steps_of (main env text a)) ↔ Returns (main env text a))
unfolding main
main-listen env text a addr =
    let (listens, client, db, returns) = run_of-listen text a addr (load_config env) in
    let secret = load_config-secret env in
    (
      (
        λ h.
            let (cfg, e, at, s) = listens.0 h in
            let (long, same_config) = (secret cfg).0 e in
            (long, ap (λ c. c.server) same_config ∙ at, s),
        λ (long, at, s). listens.1 (from_env env, (secret (from_env env)).1 (long, refl), at, s),
      ),
      (
        λ h. let (cfg, e, s, serve) = returns.0 h in (((secret cfg).0 e).0, s, serve),
        λ (long, s, serve).
            returns.1 (from_env env, (secret (from_env env)).1 (long, refl), s, serve),
      ),
      client,
      db,
    )
