-- ===== src/Docker/Sdk/Stats.antt =====
-- internal/docker/sdk_client.go: ParseStats. encoding/json and the floating-point numbers, with the
-- operations that the code uses, are parameters; an uint64 is a number below 2^64.
use compose_cockpit.Base.{
  ℕ, ◌+◌, ◌-◌, ◌%◌, ◌<◌, String, Bool, ◌&&◌, Option, none, some, List, [], ◌∷◌, ◌≡◌, ltb,
  if◌then◌else◌, arith,
}

-- float64, with the conversion of an uint64 and the test `x > 0`.
pub record Floats : Type 1 where
  pub Float : Type 0
  pub of_uint : ℕ → Float
  pub divided : Float → Float → Float
  pub times : Float → Float → Float
  pub is_positive : Float → Bool

-- The fields of types.StatsJSON that the code reads; `networks` has the values of the map.
pub record RawStats : Type 0 where
  pub cpu_total : ℕ
  pub cpu_system : ℕ
  pub online_cpus : ℕ
  pub previous_total : ℕ
  pub previous_system : ℕ
  pub memory_usage : ℕ
  pub memory_limit : ℕ
  pub networks : List (ℕ × ℕ)
  pub pids : ℕ

abbrev pub uint64_mod : ℕ
uint64_mod = 0x10000000000000000

-- `a - b` on uint64.
unfoldable pub minus : ℕ → ℕ → ℕ
minus a b = (a + uint64_mod - b) % uint64_mod

-- `netRx` and `netTx`, which start at 0.
unfoldable pub network_totals : List (ℕ × ℕ) → ℕ × ℕ → ℕ × ℕ
network_totals [] sums = sums
network_totals ((rx, tx) ∷ networks) (r, t) =
    network_totals networks ((r + rx) % uint64_mod, (t + tx) % uint64_mod)

module _ (floats : Floats) where
  open floats use {Float, of_uint, divided, times, is_positive}

  -- ContainerStats, less its times; ParseStats leaves the identifier and the name empty.
  pub record ContainerStats : Type 0 where
    pub container_id : String
    pub name : String
    pub cpu_percent : Float
    pub memory_usage : ℕ
    pub memory_limit : ℕ
    pub mem_percent : Float
    pub network_rx : ℕ
    pub network_tx : ℕ
    pub pids : ℕ

  unfoldable pub cpu_percent : RawStats → Float
  unfolding minus
  cpu_percent raw =
      let cpu_delta = of_uint (minus raw.cpu_total raw.previous_total) in
      let system_delta = of_uint (minus raw.cpu_system raw.previous_system) in
      if is_positive system_delta && is_positive cpu_delta
      then times (times (divided cpu_delta system_delta) (of_uint raw.online_cpus)) (of_uint 100)
      else of_uint 0

  unfoldable pub mem_percent : RawStats → Float
  mem_percent raw =
      if ltb 0 raw.memory_limit
      then times (divided (of_uint raw.memory_usage) (of_uint raw.memory_limit)) (of_uint 100)
      else of_uint 0

  unfoldable pub stats_of : RawStats → ContainerStats
  unfolding cpu_percent mem_percent network_totals
  stats_of raw =
      let net = network_totals raw.networks (0, 0) in
      record {
        container_id = "";
        name = "";
        cpu_percent = cpu_percent raw;
        memory_usage = raw.memory_usage;
        memory_limit = raw.memory_limit;
        mem_percent = mem_percent raw;
        network_rx = net.0;
        network_tx = net.1;
        pids = raw.pids;
      }

  -- ParseStats; `unmarshal` is json.Unmarshal into types.StatsJSON.
  unfoldable pub parse_stats : (List ℕ → Option RawStats) → List ℕ → Option ContainerStats
  unfolding stats_of
  parse_stats unmarshal bytes = elim (unmarshal bytes) [
    | none ↦ none
    | some raw ↦ some (stats_of raw)
  ]

-- The difference of a counter that has fallen is 2^64 less the distance, and so above zero.
minus-fallen :
    (a b : ℕ) → a < b → b < uint64_mod → (0 < minus a b) × (minus a b ≡ uint64_mod - (b - a))
unfolding minus
minus-fallen a b h k = (omega arith, omega arith)
