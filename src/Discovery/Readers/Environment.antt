-- ===== src/Discovery/Readers/Environment.antt =====
-- What mergeEnvInterface of internal/discovery/parser.go gives for each variable.
use compose_cockpit.Base.{String, List, [], ◌∷◌, ◌≡◌, refl}
use compose_cockpit.Base.Dict.{
  Dict, lookup, or_else, UniqueKeys, lookup-insert_all, insert-UniqueKeys,
}
use compose_cockpit.Discovery.Readers.{
  non_empty, or_empty, pair_of, add_pairs, parse_env_interface, merge_env_interface,
}
use compose_cockpit.Discovery.Value.{Value}

-- The variables that a value stands for.
abbrev pub variables : Value → Dict String
variables v = or_empty (parse_env_interface v)

-- Merging takes the value of the override where it has the variable, and the base's otherwise.
pub variables-merge_env_interface :
    (base over : Value) (k : String)
    → UniqueKeys (variables over)
    → lookup k (variables (merge_env_interface base over))
      ≡ or_else (lookup k (variables over)) (lookup k (variables base))
unfolding merge_env_interface parse_env_interface
variables-merge_env_interface base over k u =
    lookup-insert_all k (variables over) (variables base) u

or_empty-non_empty : (m : Dict String) → or_empty (non_empty m) ≡ m
or_empty-non_empty [] = refl
or_empty-non_empty (e ∷ m) = refl

add_pairs-UniqueKeys :
    (ss : List String) (m : Dict String) → UniqueKeys m → UniqueKeys (add_pairs ss m)
unfolding add_pairs
add_pairs-UniqueKeys [] m u = u
add_pairs-UniqueKeys (s ∷ ss) m u =
    add_pairs-UniqueKeys ss _ (insert-UniqueKeys (pair_of s).0 (pair_of s).1 m u)
