-- ===== src/Discovery/Expand.antt =====
-- expandEnvVars of internal/discovery/parser.go: the matches of
-- \$\{([^}]+)\}|\$([A-Za-z_][A-Za-z0-9_]*) from the left, and what replaces each of them.
pub mod Laws
use Prim.Native.Char.{Char, code}
use Prim.Native.String
use package.text.Mathlib.Text.{starts_with}
use compose_cockpit.Base.{
  ℕ, zero, suc, ◌+◌, String, Bool, true, false, not, ◌||◌, ◌&&◌, Option, none, some, List, [], ◌∷◌,
  same, leb, ◌==◌, if◌then◌else◌,
}
use compose_cockpit.Base.Dict.{Dict, lookup}
use compose_cockpit.Base.Text.{cat, is_char, cut}

-- [A-Za-z_]
letter : Char → Bool
letter c = let n = code c in (leb 65 n && leb n 90) || (leb 97 n && leb n 122) || n == 95

-- [A-Za-z0-9_]
word_char : Char → Bool
unfolding letter
word_char c = let n = code c in letter c || (leb 48 n && leb n 57)

-- The longest front of word characters.
word : String → String
unfolding word_char
word String.[] = ""
word (String.◌∷◌ c s) = let rest = word s in if word_char c then String.◌∷◌ c rest else ""

unfoldable pub count : String → ℕ
count String.[] = 0
count (String.◌∷◌ c s) = suc (count s)

-- A match behind the "$": what stands in it, and the text of the match without the "$".
braced : Option (String × String) → Option (String × String)
braced none = none
braced (some (inner, rest)) =
    if same inner "" then none else some (inner, String.◌∷◌ "{" (cat inner "}"))

match_at : String → Option (String × String)
unfolding braced word letter
match_at String.[] = none
match_at (String.◌∷◌ c s) =
    if is_char "{" c
    then braced (cut "}" s)
    else if letter c
    then some (word (String.◌∷◌ c s), word (String.◌∷◌ c s))
    else none

after_dash : String → Option String
after_dash String.[] = none
after_dash (String.◌∷◌ c s) = if is_char "-" c then some s else none

-- `strings.Index(inner, ":-")`
cut_default : String → Option (String × String)
unfolding after_dash
cut_default String.[] = none
cut_default (String.◌∷◌ c s) = elim (if is_char ":" c then after_dash s else none) [
  | some default ↦ some ("", default)
  | none ↦ elim (cut_default s) [ none ↦ none | some (a, b) ↦ some (String.◌∷◌ c a, b) ]
]

-- The name of the variable, and its default.
unfoldable pub reference : String → String × Option String
unfolding cut_default
reference inner = elim (cut_default inner) [
  | some (a, b) ↦ (a, some b)
  | none ↦ elim (cut "-" inner) [ some (a, b) ↦ (a, some b) | none ↦ (inner, none) ]
]

unfoldable pub or_default : Option String → String → String
or_default none whole = whole
or_default (some text) whole = text

-- The value that is set and not empty, else the default, else the match itself.
unfoldable pub value_of : Dict String → String × Option String → String → String
unfolding or_default
value_of env (name, default) whole = elim (lookup name env) [
  | none ↦ or_default default whole
  | some v ↦ if same v "" then or_default default whole else v
]

module _ (env : Dict String) where
  replaced : Option (String × String) → String → String → String
  replaced none plain matched = plain
  replaced (some m) plain matched = cat (value_of env (reference m.0) (String.◌∷◌ "$" m.1)) matched

  abbrev skipped : Option (String × String) → ℕ
  skipped none = 0
  skipped (some m) = count m.1

  -- The rest of the text, when the given number of characters still belong to a match.
  unfoldable pub expand_from : ℕ → String → String
  unfolding match_at replaced
  expand_from skip String.[] = ""
  expand_from (suc skip) (String.◌∷◌ c s) = expand_from skip s
  expand_from zero (String.◌∷◌ c s) = elim (is_char "$" c) [
    | false ↦ String.◌∷◌ c (expand_from zero s)
    | true ↦
        replaced (match_at s) (String.◌∷◌ c (expand_from zero s))
          (expand_from (skipped (match_at s)) s)
  ]

  unfoldable pub expand_env_vars : String → String
  expand_env_vars content = expand_from zero content
