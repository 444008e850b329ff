-- ===== src/Discovery/Readers.antt =====
-- The readers of single fields in internal/discovery/parser.go.
pub mod Environment
use compose_cockpit.Base.{
  String, Bool, true, false, Option, none, some, List, [], ◌∷◌, map, if◌then◌else◌,
}
use compose_cockpit.Base.Dict.{Dict, insert, insert_all}
use compose_cockpit.Base.Text.{cut, fields}
use compose_cockpit.Discovery.Value.{
  Value, null, bool, int, number, text, list, mapping, strings, Values, no_values, item, Entries,
  no_entries, entry, field, has_field, as_text, text_or, printed_values, printed_entries,
}
use compose_cockpit.Domain.Project.{BuildConfig, ServiceDependency}

-- `if len(result) == 0 { return nil }`; `none` is a nil map.
abbrev pub non_empty : {V : Type 0} → Dict V → Option (Dict V)
non_empty [] = none
non_empty (e ∷ m) = some (e ∷ m)

-- `k, v, _ := strings.Cut(s, "=")`
abbrev pub pair_of : String → String × String
pair_of s = elim (cut "=" s) [ none ↦ (s, "") | some p ↦ p ]

-- `for _, item := range val { result[k] = v }`
add_pairs : List String → Dict String → Dict String
add_pairs [] m = m
add_pairs (s ∷ ss) m = let p = pair_of s in add_pairs ss (insert p.0 p.1 m)

-- parseEnvInterface
unfoldable pub parse_env_interface : Value → Option (Dict String)
unfolding add_pairs
parse_env_interface (strings m) = some m
parse_env_interface (mapping es) = non_empty (printed_entries es)
parse_env_interface (list vs) = non_empty (add_pairs (printed_values vs) [])
parse_env_interface _ = none

abbrev pub or_empty : {V : Type 0} → Option (Dict V) → Dict V
or_empty none = []
or_empty (some m) = m

-- mergeEnvInterface
unfoldable pub merge_env_interface : Value → Value → Value
merge_env_interface base over =
    strings (insert_all (or_empty (parse_env_interface over)) (or_empty (parse_env_interface base)))

-- parseBuildConfig
unfoldable pub parse_build_config : Value → Option BuildConfig
parse_build_config (text s) = some (record { context = s; dockerfile = ""; args = []; target = "" })
parse_build_config (mapping es) = some (record {
  context = text_or "" (field "context" es);
  dockerfile = text_or "" (field "dockerfile" es);
  args = or_empty (parse_env_interface (field "args" es));
  target = text_or "" (field "target" es);
})
parse_build_config _ = none

started_service : ServiceDependency
started_service = record { condition = "service_started" }

condition_of : Value → ServiceDependency
condition_of (mapping es) = record { condition = text_or "service_started" (field "condition" es) }
condition_of _ = record { condition = "service_started" }

started_all : List String → Dict ServiceDependency → Dict ServiceDependency
unfolding started_service
started_all [] m = m
started_all (n ∷ ns) m = started_all ns (insert n started_service m)

conditions : Entries → Dict ServiceDependency
unfolding condition_of
conditions no_entries = []
conditions (entry name v es) = (name, condition_of v) ∷ conditions es

-- parseDependsOn
unfoldable pub parse_depends_on : Value → Dict ServiceDependency
unfolding started_all conditions
parse_depends_on (list vs) = started_all (printed_values vs) []
parse_depends_on (mapping es) = conditions es
parse_depends_on _ = []

keys_of : Entries → List String
keys_of no_entries = []
keys_of (entry k v es) = k ∷ keys_of es

-- parseNetworksList
unfoldable pub parse_networks_list : Value → List String
unfolding keys_of
parse_networks_list (list vs) = printed_values vs
parse_networks_list (mapping es) = keys_of es
parse_networks_list _ = []

-- parseStringOrSlice
unfoldable pub parse_string_or_slice : Value → List String
parse_string_or_slice (text s) = fields s
parse_string_or_slice (list vs) = printed_values vs
parse_string_or_slice _ = []

-- parseBoolOrStruct
unfoldable pub parse_bool_or_struct : Value → Bool
parse_bool_or_struct (bool b) = b
parse_bool_or_struct (mapping es) = true
parse_bool_or_struct _ = false
