-- ===== src/Base/Text.antt =====
-- Go's `+` on strings, and what the code uses of the package strings with a separator of one
-- character. A text is a list of characters.
pub mod Laws
use Prim.Native.Char.{Char, code}
use Prim.Native.Nat.{◌+◌, ℕ, zero, suc}
use Prim.Native.String.{String}
use Prim.Native.String
use mathlib.Core.Bool.{Bool, true, false, not, ◌||◌, ◌&&◌}
use mathlib.Core.Option.{Option, none, some}
use mathlib.Core.List.{List, [], ◌∷◌}
use text.Mathlib.Text.{◌==◌ as text_eq}
use compose_cockpit.Base.Tests.{◌==◌, leb, ltb, if◌then◌else◌}

-- The operator's own name means list append elsewhere.
abbrev pub cat : String → String → String
cat s t = String.◌++◌ s t

-- The character is `k`.
abbrev pub is_char : Char → Char → Bool
is_char k c = code c == code k

-- `strings.Contains(s, string(k))`
unfoldable pub has : Char → String → Bool
has k String.[] = false
has k (String.◌∷◌ c s) = is_char k c || has k s

-- A piece that is found behind the character.
behind : Char → Option (String × String) → Option (String × String)
behind c none = none
behind c (some (a, b)) = some (String.◌∷◌ c a, b)

-- `strings.Cut(s, string(k))`: around the first `k`, if there is one.
unfoldable pub cut : Char → String → Option (String × String)
unfolding behind
cut k String.[] = none
cut k (String.◌∷◌ c s) =
    let later = behind c (cut k s) in if is_char k c then some ("", s) else later

-- `strings.LastIndex(s, string(k))`: around the last `k`, if there is one.
unfoldable pub last_cut : Char → String → Option (String × String)
unfolding behind
last_cut k String.[] = none
last_cut k (String.◌∷◌ c s) = elim (last_cut k s) [
  | some (a, b) ↦ some (String.◌∷◌ c a, b)
  | none ↦ if is_char k c then some ("", s) else none
]

onto_first : Char → List String → List String
onto_first c [] = String.◌∷◌ c "" ∷ []
onto_first c (p ∷ ps) = String.◌∷◌ c p ∷ ps

-- `strings.Split(s, string(k))`
unfoldable pub split : Char → String → List String
unfolding onto_first
split k String.[] = "" ∷ []
split k (String.◌∷◌ c s) =
    let rest = split k s in if is_char k c then "" ∷ rest else onto_first c rest

-- `strings.Join(parts, string(k))`
unfoldable pub join : Char → List String → String
join k [] = ""
join k (p ∷ []) = p
join k (p ∷ q ∷ ps) = cat p (String.◌∷◌ k (join k (q ∷ ps)))

-- `strings.HasSuffix(s, t)`
unfoldable pub has_suffix : String → String → Bool
has_suffix t String.[] = text_eq "" t
has_suffix t (String.◌∷◌ c s) = text_eq (String.◌∷◌ c s) t || has_suffix t s

-- `strings.SplitN(s, string(k), n)` for a positive `n`.
unfoldable pub split_n : Char → ℕ → String → List String
split_n k zero s = []
split_n k (suc zero) s = s ∷ []
split_n k (suc (suc n)) s = elim (cut k s) [ none ↦ s ∷ [] | some (a, b) ↦ a ∷ split_n k (suc n) b ]

-- `unicode.IsSpace`
is_space : Char → Bool
is_space c =
    let n = code c in
    (leb 9 n && leb n 13)
    || n == 32
    || n == 133
    || n == 160
    || n == 5760
    || (leb 8192 n && leb n 8202)
    || n == 8232
    || n == 8233
    || n == 8239
    || n == 8287
    || n == 12288

unfoldable pub trim_left : (Char → Bool) → String → String
trim_left p String.[] = ""
trim_left p (String.◌∷◌ c s) = let rest = trim_left p s in if p c then rest else String.◌∷◌ c s

-- A character before what is left of the rest; a trimmed one is kept only if something is left.
kept_before : (Char → Bool) → Char → String → String
kept_before p c String.[] = if p c then "" else String.◌∷◌ c ""
kept_before p c (String.◌∷◌ d t) = String.◌∷◌ c (String.◌∷◌ d t)

unfoldable pub trim_right : (Char → Bool) → String → String
unfolding kept_before
trim_right p String.[] = ""
trim_right p (String.◌∷◌ c s) = kept_before p c (trim_right p s)

-- `strings.TrimSpace`
unfoldable pub trim_space : String → String
unfolding trim_left trim_right is_space
trim_space s = trim_right is_space (trim_left is_space s)

-- The words of a text, with the word that was begun.
fields_from : String → String → List String
unfolding is_space
fields_from word String.[] = if text_eq word "" then [] else word ∷ []
fields_from word (String.◌∷◌ c s) =
    let next = fields_from (if is_space c then "" else cat word (String.◌∷◌ c "")) s in
    if is_space c && not (text_eq word "") then word ∷ next else next

-- `strings.Fields`
unfoldable pub fields : String → List String
unfolding fields_from
fields s = fields_from "" s

-- `strings.EqualFold` with an ASCII name: two letters fold to "k" and "s" from outside ASCII.
fold : Char → ℕ
fold c =
    let n = code c in
    if leb 65 n && leb n 90 then n + 32 else if n == 8490 then 107 else if n == 383 then 115 else n

unfoldable pub equal_fold : String → String → Bool
unfolding fold
equal_fold String.[] String.[] = true
equal_fold String.[] (String.◌∷◌ d t) = false
equal_fold (String.◌∷◌ c s) String.[] = false
equal_fold (String.◌∷◌ c s) (String.◌∷◌ d t) = let rest = equal_fold s t in fold c == fold d && rest

-- The bytes of a text in UTF-8, which `len` counts.
unfoldable pub byte_length : String → ℕ
byte_length String.[] = 0
byte_length (String.◌∷◌ c s) =
    let n = code c in
    let rest = byte_length s in
    (if ltb n 128 then 1 else if ltb n 2048 then 2 else if ltb n 65536 then 3 else 4) + rest
