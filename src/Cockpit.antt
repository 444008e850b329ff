-- ===== src/Cockpit.antt =====
-- cmd/cockpit/main.go: the start of the program and its end, as the steps that main takes. What the
-- database, the daemon and the network answer is a parameter;
-- internal/telemetry/logger.go is with it.
pub mod Startup
use compose_cockpit.Base.{ℕ, String, Option, none, some, List, [], ◌∷◌, same, if◌then◌else◌}
use compose_cockpit.Base.Results.{Result, ok, err}
use compose_cockpit.Config.{
  Config, ServerConfig, DatabaseConfig, DockerConfig, DiscoveryConfig, AuthConfig, ConfigError,
  Environment, load_config,
}

pub data Level : Type 0 where
  level_debug level_info level_warn level_error : Level

-- NewLogger of internal/telemetry
unfoldable pub level_of : String → Level
level_of level =
    if same level "debug"
    then level_debug
    else if same level "warn"
    then level_warn
    else if same level "error"
    then level_error
    else level_info

-- What main does, in the order of the code. `set_default` sets the logger of the package slog, which
-- is not the one that the components are given.
pub data Step : Type 0 where
  set_default : Level → Step
  new_db : DatabaseConfig → Step
  auto_migrate : Step
  new_client : DockerConfig → Step
  ping : Step
  new_repositories : AuthConfig → Step
  new_scanner : DiscoveryConfig → Step
  start_workers : ℕ → Step
  initial_scan : Step
  stream_docker_events : Step
  collect_stats : (seconds : ℕ) → Step
  listen : ServerConfig → Step
  shutdown : (timeout : ℕ) → Step
  cancel_context : Step
  cancel_shutdown : Step
  close_db : Step
  close_client : Step
  close_broker : Step
  log_error : (message error : String) → Step
  log_warning : (message error : String) → Step

-- A run ends by os.Exit(1), or main returns.
pub data Run : Type 0 where
  step : Step → Run → Run
  exit returned : Run

-- A deferred call runs when main returns; os.Exit runs none.
unfoldable pub deferred : Step → Run → Run
deferred d (step s run) = step s (deferred d run)
deferred d exit = exit
deferred d returned = step d returned

-- The errors of the calls outside the repository, of the scan, of the server before a signal comes, and
-- of its shutdown.
pub record Answers : Type 0 where
  pub new_db : Option String
  pub auto_migrate : Option String
  pub new_client : Option String
  pub ping : Option String
  pub initial_scan : Option String
  pub serve : Option String
  pub shutdown : Option String

-- `if err != nil { logger.Error(...); os.Exit(1) }`
unfoldable pub or_exit : String → Option String → Run → Run
or_exit message none run = run
or_exit message (some e) run = step (log_error message e) exit

-- An error that is only logged.
unfoldable pub noted : (String → Step) → Option String → Run → Run
noted line none run = run
noted line (some e) run = step (line e) run

-- setLogLevel: another word changes nothing.
unfoldable pub set_log_level : String → Run → Run
set_log_level level run =
    if same level "debug"
    then step (set_default level_debug) run
    else if same level "warn"
    then step (set_default level_warn) run
    else if same level "error"
    then step (set_default level_error) run
    else run

-- From the signal on.
unfoldable pub stopped : Config → Answers → Run
unfolding deferred noted
stopped cfg a = deferred cancel_shutdown (
    step close_broker (
      step (shutdown cfg.server.shutdown_timeout)
        (noted (log_error "graceful shutdown failed") a.shutdown (step cancel_context returned))))

-- The server, until a signal comes.
unfoldable pub listening : Config → Answers → Run
unfolding or_exit stopped
listening cfg a = step (listen cfg.server) (or_exit "server error" a.serve (stopped cfg a))

-- From the broker on.
unfoldable pub serving : Config → Answers → Run
unfolding deferred noted listening
serving cfg a = deferred close_broker (
    step (start_workers 4) (
      step initial_scan (
        noted (log_warning "initial scan failed") a.initial_scan
          (step stream_docker_events (step (collect_stats 5) (listening cfg a))))))

-- From the Docker client on.
unfoldable pub with_client : Config → Answers → Run
unfolding deferred or_exit serving
with_client cfg a = deferred close_client (
    step ping (
      or_exit "docker ping failed" a.ping
        (step (new_repositories cfg.auth) (step (new_scanner cfg.discovery) (serving cfg a)))))

-- From the database on.
unfoldable pub with_db : Config → Answers → Run
unfolding deferred or_exit with_client
with_db cfg a = deferred close_db (
    step auto_migrate (
      or_exit "auto migrate" a.auto_migrate (
        step (new_client cfg.docker)
          (or_exit "create docker client" a.new_client (with_client cfg a)))))

unfoldable pub configured : Config → Answers → Run
unfolding deferred or_exit with_db set_log_level
configured cfg a = set_log_level cfg.telemetry.log_level (
    deferred cancel_context
      (step (new_db cfg.database) (or_exit "connect database" a.new_db (with_db cfg a))))

-- `text` is the text of an error of Load.
unfoldable pub run_of : (ConfigError → String) → Answers → Result ConfigError Config → Run
unfolding configured or_exit
run_of text a (ok cfg) = configured cfg a
run_of text a (err e) = or_exit "load config" (some (text e)) exit

unfoldable pub main : Environment → (ConfigError → String) → Answers → Run
unfolding run_of
main env text a = run_of text a (load_config env)
