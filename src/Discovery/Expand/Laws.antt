-- ===== src/Discovery/Expand/Laws.antt =====
-- What expandEnvVars of internal/discovery/parser.go does to a text with a reference in braces.

pub mod Defaults
use text.Mathlib.TextLemmas.{nil-append, cons-append, append_assoc}
use compose_cockpit.Base.{zero, suc, String, false, none, some, ◌≡◌, refl, sym, ap, ◌∙◌, same}
use compose_cockpit.Base.Dict.{Dict}
use compose_cockpit.Base.Text.{cat, has}
use compose_cockpit.Base.Text.Laws.{sep, cut-cat, cut-lacks, has-cons}
use compose_cockpit.Discovery.Expand.{
  after_dash, count, braced, match_at, cut_default, reference, value_of, replaced, expand_from,
  expand_env_vars,
}

-- A reference to a variable in braces.
abbrev pub reference_text : String → String
reference_text inner = sep "$" (sep "{" (cat inner "}"))

module _ (env : Dict String) where
  expand_from-count : (a s : String) → expand_from env (count a) (cat a s) ≡ expand_from env zero s
  unfolding count expand_from
  expand_from-count String.[] s = ap (expand_from env zero) (nil-append s)
  expand_from-count (String.◌∷◌ c a) s =
      ap (expand_from env (suc (count a))) (cons-append c a s) ∙ expand_from-count a s

  expand-cat_plain :
      (a s : String)
      → has "$" a ≡ false
      → expand_from env zero (cat a s) ≡ cat a (expand_from env zero s)
  unfolding has expand_from
  expand-cat_plain String.[] s h = rw (nil-append s, nil-append (expand_from env zero s)) refl
  expand-cat_plain (String.◌∷◌ c a) s h =
      let (other, h') = has-cons "$" c a h in
      rw (cons-append c a s, expand_from, other)
        (ap (String.◌∷◌ c) (expand-cat_plain a s h')
          ∙ sym (cons-append c a (expand_from env zero s)))

  -- A text without a dollar sign is unchanged.
  expand_from-lacks : (s : String) → has "$" s ≡ false → expand_from env zero s ≡ s
  unfolding has expand_from
  expand_from-lacks String.[] h = refl
  expand_from-lacks (String.◌∷◌ c s) h =
      let (other, h') = has-cons "$" c s h in
      rw (expand_from, other) (ap (String.◌∷◌ c) (expand_from-lacks s h'))

  -- The text of a reference and what follows it, as the scan meets them.
  reference_text-cat :
      (inner rest : String)
      → (cat (cat inner "}") rest ≡ cat inner (sep "}" rest))
        × (cat (reference_text inner) rest ≡ sep "$" (sep "{" (cat inner (sep "}" rest))))
  reference_text-cat inner rest =
      let closing : cat "}" rest ≡ sep "}" rest =
        cons-append "}" "" rest ∙ ap (sep "}") (nil-append rest) in
      let e = append_assoc inner "}" rest ∙ ap (cat inner) closing in
      (e, cons-append "$" _ rest ∙ ap (sep "$") (cons-append "{" _ rest ∙ ap (sep "{") e))

  expand_from-reference_text :
      (inner rest : String)
      → has "}" inner ≡ false
      → same inner "" ≡ false
      → expand_from env zero (cat (reference_text inner) rest)
        ≡ cat (value_of env (reference inner) (reference_text inner)) (expand_from env zero rest)
  unfolding expand_from match_at braced replaced count
  expand_from-reference_text inner rest closed some_name =
      let (e, e') = reference_text-cat inner rest in
      let skip : expand_from env (count (cat inner "}")) (cat inner (sep "}" rest))
          ≡ expand_from env zero rest =
        ap (expand_from env (count (cat inner "}"))) (sym e)
        ∙ expand_from-count (cat inner "}") rest in
      rw
        (
          e',
          expand_from,
          match_at,
          cut-cat "}" inner rest closed,
          braced,
          some_name,
          replaced,
          count,
        )
        (ap (cat (value_of env (reference inner) (reference_text inner))) skip)

  -- A reference in braces behind a text without a dollar sign is replaced by the value of its variable,
  -- by its default or by itself, and the rest is expanded on its own.
  pub expand_env_vars-reference_text :
      (before inner rest : String)
      → has "$" before ≡ false
      → has "}" inner ≡ false
      → same inner "" ≡ false
      → expand_env_vars env (cat before (cat (reference_text inner) rest))
        ≡ cat before
            (cat (value_of env (reference inner) (reference_text inner)) (expand_env_vars env rest))
  unfolding expand_env_vars expand_from match_at braced replaced
  expand_env_vars-reference_text before inner rest plain closed some_name =
      expand-cat_plain before _ plain
      ∙ ap (cat before) (expand_from-reference_text inner rest closed some_name)

cut_default-cat :
    (name default : String)
    → has ":" name ≡ false
    → cut_default (cat name (sep ":" (sep "-" default))) ≡ some (name, default)
unfolding cut_default after_dash
cut_default-cat String.[] default h = rw (nil-append (sep ":" (sep "-" default)), cut_default) refl
cut_default-cat (String.◌∷◌ c name) default h =
    let (other, h') = has-cons ":" c name h in
    rw
      (
        cons-append c name (sep ":" (sep "-" default)),
        cut_default,
        other,
        cut_default-cat name default h',
      )
      refl

cut_default-lacks : (s : String) → has ":" s ≡ false → cut_default s ≡ none
unfolding cut_default after_dash
cut_default-lacks String.[] h = refl
cut_default-lacks (String.◌∷◌ c s) h =
    let (other, h') = has-cons ":" c s h in rw (cut_default, other, cut_default-lacks s h') refl

-- What stands in a reference names the variable and its default: `name:-default` always, `name-default`
-- if it has no colon, and otherwise there is no default.
pub reference-default :
    (name default : String)
    → has ":" name ≡ false
    → has "-" name ≡ false
    → (reference (cat name (sep ":" (sep "-" default))) ≡ (name, some default))
      × (has ":" (cat name (sep "-" default)) ≡ false
          → reference (cat name (sep "-" default)) ≡ (name, some default))
      × (reference name ≡ (name, none))
unfolding reference
reference-default name default colon dash = (
  rw (cut_default-cat name default colon, reference) refl,
  (λ h.
      rw
        (cut_default-lacks (cat name (sep "-" default)) h, reference, cut-cat "-" name default dash)
        refl),
  rw (cut_default-lacks name colon, reference, cut-lacks "-" name dash) refl,
)
