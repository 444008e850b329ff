-- ===== src/Discovery/EnvFile/RoundTrip.antt =====
-- Reading an env file that was written from variables.
use package.text.Mathlib.Text.{starts_with}
use compose_cockpit.Base.{String, false, some, [], ◌∷◌, ◌≡◌, refl, same}
use compose_cockpit.Base.Dict.{Dict, insert, insert_all}
use compose_cockpit.Base.Text.{cat, has, split, trim_left, trim_right, trim_space}
use compose_cockpit.Base.Text.Laws.{sep, cut-cat, split-cat}
use compose_cockpit.Discovery.EnvFile.{trim_quotes, env_pair, env_lines, parse_env_text}

abbrev pub env_line : String × String → String
env_line p = cat p.0 (sep "=" p.1)

-- A line for each variable.
abbrev pub env_text : Dict String → String
env_text [] = ""
env_text (p ∷ ps) = cat (env_line p) (sep "\n" (env_text ps))

-- A variable that can be written on one line as it is: nothing around its key and value is trimmed, the
-- key has no "=", and the line is neither blank nor a comment and has no line break.
pub record IsPlain (p : String × String) : Type 0 where
  pub one_line : has "\n" (env_line p) ≡ false
  pub key : has "=" p.0 ≡ false
  pub not_blank : same (env_line p) "" ≡ false
  pub not_comment : starts_with (env_line p) "#" ≡ false
  pub line_trimmed : trim_space (env_line p) ≡ env_line p
  pub key_trimmed : trim_space p.0 ≡ p.0
  pub value_trimmed : trim_space p.1 ≡ p.1
  pub unquoted : trim_quotes p.1 ≡ p.1

abbrev pub AllPlain : Dict String → Type 0
AllPlain [] = Unit
AllPlain (p ∷ ps) = IsPlain p × AllPlain ps

env_pair-env_line : (p : String × String) → IsPlain p → env_pair (env_line p) ≡ some p
unfolding env_pair
env_pair-env_line p h =
    rw
      (
        env_pair,
        h.not_blank,
        h.not_comment,
        cut-cat "=" p.0 p.1 h.key,
        h.key_trimmed,
        h.value_trimmed,
        h.unquoted,
      )
      refl

-- Reading the lines of plain variables sets them one after the other.
parse_env_text-env_text :
    (vars env : Dict String)
    → AllPlain vars
    → parse_env_text (env_text vars) env ≡ insert_all vars env
unfolding parse_env_text env_lines env_pair split trim_space trim_left trim_right
parse_env_text-env_text [] env h = refl
parse_env_text-env_text (p ∷ ps) env (hp, h) =
    rw
      (
        split-cat "\n" (env_line p) (env_text ps) hp.one_line,
        parse_env_text,
        env_lines,
        hp.line_trimmed,
        env_pair-env_line p hp,
      )
      (parse_env_text-env_text ps (insert p.0 p.1 env) h)
