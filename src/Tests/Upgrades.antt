-- ===== src/Tests/Upgrades.antt =====
-- Migrations of a database that keeps the versions it is told.
use compose_cockpit.Base.{
  In, subst, same_self, ◌++◌, String, Bool, true, false, ◌||◌, ◌&&◌, none, List, [], ◌∷◌, ◌≡◌, refl,
  same, arith, inl, inr,
}
use compose_cockpit.Base.Text.{cat, has_suffix, join, split, trim_space}
use compose_cockpit.Base.Results.{Result, ok}
use compose_cockpit.Store.Migrations.{
  Database, Embedded, ◌>>=◌, ◌>>=◌, Statement, Log, auto_migrate, extract_up_sql, insert_version,
  create_versions, select_version, sort_strings,
}
use compose_cockpit.Store.Migrations.Repeats.{Settled, Keeps, executed, auto_migrate-again}

-- The rows that a log has put into the table, or found there.
abbrev shows : String → Statement → Bool
shows name (Statement.exec text (v ∷ []) none) = same text insert_version && same v name
shows name (Statement.query text (v ∷ []) (ok true)) = same v name
shows name _ = false

abbrev has_row : String → Log → Bool
has_row name [] = false
has_row name (s ∷ l) = shows name s || has_row name l

abbrev asked : List String → Log → Result String Bool
asked (v ∷ []) l = ok (has_row v l)
asked _ l = ok false

abbrev keeper : Database
keeper = record { on_exec = λ l text args. none; on_query = λ l text args. asked args l }

-- A statement that shows the row stands in the log.
shown :
    (name : String) (s : Statement) (l : Log) → shows name s ≡ true → In s l → has_row name l ≡ true
shown name s (x ∷ l) h (inl e) = subst (λ y. (shows name y || has_row name l) ≡ true) e (rw h refl)
shown name s (x ∷ l) h (inr m) = ground (arith, shown name s l h m)
shown name s [] h m = elim m [ ]

Settled-has_row : (name : String) (l : Log) → Settled l name → has_row name l ≡ true
Settled-has_row name l (inl m) =
    shown name (Statement.query select_version (name ∷ []) (ok true)) l (same_self name) m
Settled-has_row name l (inr m) =
    shown name (Statement.exec insert_version (name ∷ []) none) l
      (rw (same_self name, same_self insert_version) refl) m

keeper-Keeps : Keeps keeper
keeper-Keeps = record { kept = λ name l h e. let k = Settled-has_row name l h in ground arith }

-- The files of a small build, not in the order of their names.
abbrev build : Embedded
build = record {
  read_dir = ok (
      record { name = "002_acl.sql"; is_dir = false }
      ∷ record { name = "001_initial.sql"; is_dir = false }
      ∷ record { name = "notes.txt"; is_dir = false }
      ∷ []);
  read_file = λ path. ok (cat "-- +goose Up\n" path);
}

-- The first run on an empty database.
first_run :
    executed (auto_migrate keeper build []).1
    ≡ insert_version ∷ "migrations/002_acl.sql" ∷ insert_version ∷ "migrations/001_initial.sql"
      ∷ create_versions ∷ []
unfolding auto_migrate extract_up_sql split join trim_space has_suffix sort_strings ◌>>=◌
first_run = refl

auto_migrate-again_example :
    executed (auto_migrate keeper build ([] ++ (auto_migrate keeper build []).1)).1
    ≡ create_versions ∷ executed ([] ++ (auto_migrate keeper build []).1)
unfolding auto_migrate extract_up_sql split join trim_space has_suffix sort_strings ◌>>=◌
auto_migrate-again_example = auto_migrate-again keeper build [] [] keeper-Keeps refl
