-- ===== src/Tests/Starts.antt =====
-- A start of the program where every answer is good, and the first scan fails.
use compose_cockpit.Base.Text.{byte_length}
use compose_cockpit.Base.{◌≤◌, String, none, some, ◌≡◌, ◌↔◌, In, same, if◌then◌else◌}
use compose_cockpit.Config.{from_env, ServerConfig, ConfigError, Environment}
use compose_cockpit.Cockpit.{main, Answers, listen, close_client, close_db}
use compose_cockpit.Cockpit.Startup.{steps_of, Returns, Starts, main-listen}

-- JWT_SECRET and PORT are set, and PORT is read as 9000.
abbrev env : Environment
env = record {
  getenv = λ key.
      if same key "JWT_SECRET"
      then "0123456789abcdef0123456789abcdef"
      else if same key "PORT"
      then "9000"
      else "";
  atoi = λ v. some 9000;
  parse_duration = λ v. none;
  parse_bool = λ v. none;
}

abbrev good : Answers
good = record {
  new_db = none;
  auto_migrate = none;
  new_client = none;
  ping = none;
  initial_scan = some "no such directory";
  serve = none;
  shutdown = none;
}

abbrev address : ServerConfig
address = record {
  host = "0.0.0.0";
  port = 9000;
  read_timeout = 30000000000;
  write_timeout = 120000000000;
  shutdown_timeout = 30000000000;
}

abbrev text : ConfigError → String
text e = "configuration"

main-listen_example :
    (In (listen address) (steps_of (main env text good))
      ↔ (32 ≤ byte_length "0123456789abcdef0123456789abcdef")
        × ((from_env env).server ≡ address)
        × Starts good)
    × (Returns (main env text good)
        ↔ (32 ≤ byte_length "0123456789abcdef0123456789abcdef") × Starts good × (good.serve ≡ none))
    × (In close_client (steps_of (main env text good)) ↔ Returns (main env text good))
    × (In close_db (steps_of (main env text good)) ↔ Returns (main env text good))
main-listen_example = main-listen env text good address
