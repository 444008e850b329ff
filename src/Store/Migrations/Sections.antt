-- ===== src/Store/Migrations/Sections.antt =====
-- What extractUpSQL of internal/store/migrate.go takes out of a migration.
use compose_cockpit.Base.{
  String, true, false, List, [], ◌∷◌, ◌++◌, ◌≡◌, refl, same, All, arith, eq_iff,
}
use mathlib.Core.List.{append-nil}
use compose_cockpit.Base.Text.{join, split, has, trim_space}
use compose_cockpit.Base.Text.Laws.{split-join}
use compose_cockpit.Store.Migrations.{up_lines, extract_up_sql, up_marker, down_marker}

-- A line that is neither marker.
abbrev pub Plain : String → Type 0
Plain line =
    (same (trim_space line) up_marker ≡ false) × (same (trim_space line) down_marker ≡ false)

up_lines-before :
    (before rest : List String)
    → All Plain before
    → up_lines false (before ++ rest) ≡ up_lines false rest
unfolding up_lines
up_lines-before [] rest h = refl
up_lines-before (x ∷ xs) rest h = ground (arith, up_lines-before xs rest h.1)

up_lines-body :
    (body rest : List String)
    → All Plain body
    → up_lines true (body ++ rest) ≡ body ++ up_lines true rest
unfolding up_lines
up_lines-body [] rest h = refl
up_lines-body (x ∷ xs) rest h = ground (arith, up_lines-body xs rest h.1)

up_lines-up :
    (up : String) (rest : List String)
    → trim_space up ≡ up_marker
    → up_lines false (up ∷ rest) ≡ up_lines true rest
unfolding up_lines
up_lines-up up rest h = ground (arith, eq_iff (trim_space up) up_marker)

up_lines-down :
    (down : String) (rest : List String)
    → trim_space down ≡ down_marker
    → up_lines true (down ∷ rest) ≡ []
unfolding up_lines
up_lines-down down rest h = ground (
  arith,
  eq_iff (trim_space down) up_marker,
  eq_iff (trim_space down) down_marker,
  eq_iff up_marker down_marker,
)

abbrev pub OneLine : String → Type 0
OneLine line = has "\n" line ≡ false

-- The lines around an "Up" marker come apart again.
split-join-middle :
    (before : List String) (up : String) (rest : List String)
    → All OneLine (before ++ up ∷ rest)
    → split "\n" (join "\n" (before ++ up ∷ rest)) ≡ before ++ up ∷ rest
split-join-middle [] up rest h = split-join "\n" up rest h
split-join-middle (x ∷ xs) up rest h = split-join "\n" x (xs ++ up ∷ rest) h

-- The lines of a migration.
abbrev pub sections : List String → String → List String → String → List String → List String
sections before up body down after = before ++ (up ∷ (body ++ down ∷ after))

-- Of a migration with the two markers, extractUpSQL takes the lines between them as they are.
extract_up_sql-join :
    (before body after : List String) (up down : String)
    → All Plain before
    → trim_space up ≡ up_marker
    → All Plain body
    → trim_space down ≡ down_marker
    → All OneLine (sections before up body down after)
    → extract_up_sql (join "\n" (sections before up body down after)) ≡ join "\n" body
unfolding extract_up_sql
extract_up_sql-join before body after up down hb hu hp hd one =
    rw
      (
        split-join-middle before up (body ++ down ∷ after) one,
        up_lines-before before (up ∷ (body ++ down ∷ after)) hb,
        up_lines-up up (body ++ down ∷ after) hu,
        up_lines-body body (down ∷ after) hp,
        up_lines-down down after hd,
        append-nil,
      )
      refl
