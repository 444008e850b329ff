-- ===== src/Discovery/Parser/Parse/Environment.antt =====
-- The variables that Parse of internal/discovery/parser.go expands.
use compose_cockpit.Base.{
  String, Option, none, some, [], ◌∷◌, ◌≡◌, refl, sym, ◌∙◌, same, Bool-cases, inl, inr,
  if◌then◌else◌, eq_of_same,
}
use compose_cockpit.Base.Dict.{Dict, lookup, insert, or_else, lookup-insert}
use compose_cockpit.Discovery.EnvFile.{load_env_files, get_os_env}
use compose_cockpit.Discovery.Scanner.{DiscoveredProject}
use compose_cockpit.Discovery.Parser.{Surroundings}
use compose_cockpit.Discovery.Parser.Parse.{add_missing, env_vars}

or_else-none : (o : Option String) → or_else o none ≡ o
or_else-none none = refl
or_else-none (some v) = refl

-- A variable is added as `lookup` reads it.
lookup-added :
    (j k v : String) (env : Dict String) (later : Option String)
    → lookup k env ≡ none
    → or_else (lookup j (insert k v env)) later
      ≡ or_else (lookup j env) (if same k j then some v else later)
lookup-added j k v env later p = elim (Bool-cases (same k j)) [
  | inl e ↦
      let absent : lookup j env ≡ none = rw (← eq_of_same k j e) p in
      rw (lookup-insert k j v env, e, absent) refl
  | inr e ↦ rw (lookup-insert k j v env, e) refl
]

-- A variable that is there hides what would be added.
lookup-hidden :
    (j k v w : String) (env : Dict String) (later : Option String)
    → lookup k env ≡ some w
    → or_else (lookup j env) later ≡ or_else (lookup j env) (if same k j then some v else later)
lookup-hidden j k v w env later p = elim (Bool-cases (same k j)) [
  | inl e ↦ let there : lookup j env ≡ some w = rw (← eq_of_same k j e) p in rw there refl
  | inr e ↦ rw e refl
]

lookup-add_missing :
    (j : String) (more env : Dict String)
    → lookup j (add_missing more env) ≡ or_else (lookup j env) (lookup j more)
unfolding add_missing
lookup-add_missing j [] env = sym (or_else-none (lookup j env))
lookup-add_missing j ((k, v) ∷ more) env =
    added (lookup k env) refl (lookup-add_missing j more env)
      (lookup-add_missing j more (insert k v env))
  where
    added :
        (o : Option String)
        → lookup k env ≡ o
        → lookup j (add_missing more env) ≡ or_else (lookup j env) (lookup j more)
        → lookup j (add_missing more (insert k v env))
          ≡ or_else (lookup j (insert k v env)) (lookup j more)
        → lookup j (add_missing ((k, v) ∷ more) env)
          ≡ or_else (lookup j env) (lookup j ((k, v) ∷ more))
    added none p kept extended =
        rw (add_missing, p) (extended ∙ lookup-added j k v env (lookup j more) p)
    added (some w) p kept extended =
        rw (add_missing, p) (kept ∙ lookup-hidden j k v w env (lookup j more) p)

-- A variable of the project's env files has the value they give it, whatever the process has.
pub lookup-env_vars :
    (around : Surroundings) (disc : DiscoveredProject) (k : String)
    → lookup k (env_vars around disc)
      ≡ or_else
          (lookup k (load_env_files around.read disc.env_files))
          (lookup k (get_os_env around.environ))
unfolding env_vars
lookup-env_vars around disc k =
    lookup-add_missing k (get_os_env around.environ) (load_env_files around.read disc.env_files)
