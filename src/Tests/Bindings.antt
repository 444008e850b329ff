-- ===== src/Tests/Bindings.antt =====
-- A port of a container that is published twice, and statistics in whole percents.
use compose_cockpit.Base.{ℕ, ◌*◌, ◌/◌, String, none, some, List, [], ◌∷◌, ◌≡◌, refl, ◌↔◌, ltb}
use compose_cockpit.Base.Text.{cat}
use compose_cockpit.Base.Dict.{lookup}
use compose_cockpit.Docker.Client.{PortBinding}
use compose_cockpit.Docker.Sdk.{HostBinding, build_port_bindings}
use compose_cockpit.Docker.Sdk.Ports.{last_binding, build_port_bindings-last}
use compose_cockpit.Docker.Sdk.Stats.{Floats, RawStats, stats_of, cpu_percent}

abbrev joined_port : String → String → String
joined_port protocol port = cat port (cat "/" protocol)

abbrev published : List PortBinding
published =
    record { host_ip = ""; host_port = "8080"; container_port = "80"; protocol = "tcp" }
    ∷ record { host_ip = ""; host_port = "8081"; container_port = "80"; protocol = "tcp" }
    ∷ []

abbrev second_side : List HostBinding
second_side = record { host_ip = ""; host_port = "8081" } ∷ []

build_port_bindings-last_example :
    (lookup "80/tcp" (build_port_bindings joined_port published).bindings ≡ some second_side)
    × ((lookup "80/tcp" (build_port_bindings joined_port published).exposed ≡ none)
        ↔ (last_binding joined_port "80/tcp" published ≡ none))
build_port_bindings-last_example = build_port_bindings-last joined_port "80/tcp" published

abbrev whole : Floats
whole = record {
  Float = ℕ;
  of_uint = λ n. n;
  divided = λ a b. a / b;
  times = λ a b. a * b;
  is_positive = λ a. ltb 0 a;
}

abbrev busy : RawStats
busy = record {
  cpu_total = 500;
  cpu_system = 900;
  online_cpus = 2;
  previous_total = 100;
  previous_system = 700;
  memory_usage = 300;
  memory_limit = 100;
  networks = (1, 2) ∷ (3, 4) ∷ [];
  pids = 7;
}

busy_percent : cpu_percent whole busy ≡ 400
unfolding cpu_percent
busy_percent = refl

busy_network : (stats_of whole busy).network_rx ≡ 4
unfolding stats_of
busy_network = refl
