-- ===== src/Discovery/Expand/Laws/Defaults.antt =====
-- What expandEnvVars of internal/discovery/parser.go puts in the place of a reference in braces.
use text.Mathlib.TextLemmas.{cons-append}
use compose_cockpit.Base.{
  String, false, Option, none, some, ◌≡◌, ◌≢◌, refl, ap, ◌∙◌, sym, same, same-false, if◌then◌else◌,
}
use compose_cockpit.Base.Dict.{Dict, lookup}
use compose_cockpit.Base.Text.{cat, has}
use compose_cockpit.Base.Text.Laws.{sep}
use compose_cockpit.Discovery.Expand.{expand_env_vars, value_of, or_default}
use compose_cockpit.Discovery.Expand.Laws.{
  reference_text, reference-default, expand_env_vars-reference_text,
}

-- The value of a variable that is set and not empty, and another text otherwise.
abbrev pub set_or : Dict String → String → String → String
set_or env name other = elim (lookup name env) [
  | none ↦ other
  | some v ↦ if same v "" then other else v
]

value_of-set_or :
    (env : Dict String) (name whole : String) (default : Option String)
    → value_of env (name, default) whole ≡ set_or env name (or_default default whole)
unfolding value_of
value_of-set_or env name whole default = refl

-- A name with a default behind it is not empty.
not_empty : (name tail : String) → name ≢ "" → cat name tail ≢ ""
not_empty String.[] tail h e = h refl
not_empty (String.◌∷◌ c name) tail h e = let f = sym (cons-append c name tail) ∙ e in cc

-- In a text, behind a part without a dollar sign, a reference `${name:-default}` is replaced by the value
-- of the variable if it is set and not empty, and else by the default; a reference `${name}` by such a
-- value, and else it stays as it is. What follows is expanded on its own. The name is not empty and has
-- no colon, dash or brace, and the default has no closing brace.
pub expand_env_vars-set_or :
    (env : Dict String) (before name default rest : String)
    → has "$" before ≡ false
    → name ≢ ""
    → has ":" name ≡ false
    → has "-" name ≡ false
    → has "}" name ≡ false
    → has "}" (cat name (sep ":" (sep "-" default))) ≡ false
    → (expand_env_vars env
          (cat before (cat (reference_text (cat name (sep ":" (sep "-" default)))) rest))
        ≡ cat before (cat (set_or env name default) (expand_env_vars env rest)))
      × (expand_env_vars env (cat before (cat (reference_text name) rest))
          ≡ cat before (cat (set_or env name (reference_text name)) (expand_env_vars env rest)))
unfolding or_default
expand_env_vars-set_or env before name default rest plain named colon dash closed closed' =
    let inner = cat name (sep ":" (sep "-" default)) in
    let (with_default, dashed, without) = reference-default name default colon dash in
    let put = λ (t : String). cat before (cat t (expand_env_vars env rest)) in
    (
      expand_env_vars-reference_text env before inner rest plain closed'
            (same-false inner "" (not_empty name (sep ":" (sep "-" default)) named))
          ∙ ap put (
              ap (λ r. value_of env r (reference_text inner)) with_default
              ∙ value_of-set_or env name (reference_text inner) (some default)),
      expand_env_vars-reference_text env before name rest plain closed (same-false name "" named)
          ∙ ap put (
              ap (λ r. value_of env r (reference_text name)) without
              ∙ value_of-set_or env name (reference_text name) none),
    )
