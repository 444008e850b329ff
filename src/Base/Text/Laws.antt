-- ===== src/Base/Text/Laws.antt =====
-- Where the functions of the package strings cut a text that is put together from parts.
use Prim.Native.Char.{Char}
use Prim.Native.String.{String}
use mathlib.Core.Path.{◌≡◌, ◌∙◌, refl, ap}
use mathlib.Core.Bool.{true, false}
use mathlib.Core.Option.{none, some}
use mathlib.Core.List.{List, [], ◌∷◌}
use native.Mathlib.Omega.{arith}
use text.Mathlib.TextLemmas.{append_assoc, nil-append, cons-append}
use compose_cockpit.Base.Lists.{All}
use compose_cockpit.Base.Text.{cat, is_char, has, cut, last_cut, split, join}

-- The separator with what follows it.
abbrev pub sep : Char → String → String
sep k s = String.◌∷◌ k s

self : (k : Char) → is_char k k ≡ true
self k = ground arith

pub cut-cat : (k : Char) (a b : String) → has k a ≡ false → cut k (cat a (sep k b)) ≡ some (a, b)
unfolding has cut
cut-cat k String.[] b h = ground (arith, nil-append (sep k b))
cut-cat k (String.◌∷◌ c a) b h = ground (arith, cons-append c a (sep k b), cut-cat k a b)

pub cut-lacks : (k : Char) (a : String) → has k a ≡ false → cut k a ≡ none
unfolding has cut
cut-lacks k String.[] h = refl
cut-lacks k (String.◌∷◌ c a) h = ground (arith, cut-lacks k a)

pub last_cut-lacks : (k : Char) (a : String) → has k a ≡ false → last_cut k a ≡ none
unfolding has last_cut
last_cut-lacks k String.[] h = refl
last_cut-lacks k (String.◌∷◌ c a) h = ground (arith, last_cut-lacks k a)

pub last_cut-cat :
    (k : Char) (a b : String) → has k b ≡ false → last_cut k (cat a (sep k b)) ≡ some (a, b)
unfolding has last_cut
last_cut-cat k String.[] b h = ground (arith, nil-append (sep k b), last_cut-lacks k b)
last_cut-cat k (String.◌∷◌ c a) b h = ground (arith, cons-append c a (sep k b), last_cut-cat k a b)

pub split-cat :
    (k : Char) (a b : String) → has k a ≡ false → split k (cat a (sep k b)) ≡ a ∷ split k b
unfolding has split
split-cat k String.[] b h = ground (arith, nil-append (sep k b))
split-cat k (String.◌∷◌ c a) b h = ground (arith, cons-append c a (sep k b), split-cat k a b)

pub split-lacks : (k : Char) (a : String) → has k a ≡ false → split k a ≡ a ∷ []
unfolding has split
split-lacks k String.[] h = refl
split-lacks k (String.◌∷◌ c a) h = ground (arith, split-lacks k a)

pub has-cons :
    (k c : Char) (s : String)
    → has k (String.◌∷◌ c s) ≡ false
    → (is_char k c ≡ false) × (has k s ≡ false)
unfolding has
has-cons k c s h = ground arith

-- The pieces that were joined come apart again.
pub split-join :
    (k : Char) (p : String) (ps : List String)
    → All (λ q. has k q ≡ false) (p ∷ ps)
    → split k (join k (p ∷ ps)) ≡ p ∷ ps
unfolding join
split-join k p [] h = split-lacks k p h.0
split-join k p (q ∷ ps) h =
    rw (split-cat k p (join k (q ∷ ps)) h.0) (ap (λ t. p ∷ t) (split-join k q ps h.1))

-- A separator at the end of a text is the first of what follows.
pub cat-sep : (k : Char) (a y : String) → cat (cat a (sep k "")) y ≡ cat a (sep k y)
cat-sep k a y =
    append_assoc a (sep k "") y ∙ ap (cat a) (cons-append k "" y ∙ ap (sep k) (nil-append y))
