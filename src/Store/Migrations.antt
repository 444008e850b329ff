-- ===== src/Store/Migrations.antt =====
-- internal/store/migrate.go: AutoMigrate. The database is outside the repository: an answer is any
-- function of the statements so far. The embedded files are put in by the build.
pub mod Sections
pub mod Repeats
use Prim.Native.Char.{code}
use Prim.Native.String
use compose_cockpit.Base.{
  String, Bool, true, false, not, ◌&&◌, Option, none, some, List, [], ◌∷◌, same, ltb, ◌==◌,
  if◌then◌else◌,
}
use compose_cockpit.Base.Results.{Result, ok, err}
use compose_cockpit.Base.Text.{cat, split, join, trim_space, has_suffix}

-- A statement with its arguments and what the database answered: an error of Exec, or what Scan gave.
pub data Statement : Type 0 where
  exec : String → List String → Option String → Statement
  query : String → List String → Result String Bool → Statement

-- The statements so far, the last one first.
abbrev pub Log : Type 0
Log = List Statement

pub record Database : Type 0 where
  pub on_exec : Log → String → List String → Option String
  pub on_query : Log → String → List String → Result String Bool

pub record FileEntry : Type 0 where
  pub name : String
  pub is_dir : Bool

-- `migrationsFS`
pub record Embedded : Type 0 where
  pub read_dir : Result String (List FileEntry)
  pub read_file : String → Result String String

-- The error with what the code puts before it.
pub data MigrateError : Type 0 where
  create_table read_dir : String → MigrateError
  check read_file apply record_version : String → String → MigrateError

abbrev pub create_versions : String
create_versions =
    "\n\t\tCREATE TABLE IF NOT EXISTS schema_migrations (\n\t\t\tversion TEXT PRIMARY KEY,\n\t\t\tapplied_at TIMESTAMPTZ NOT NULL DEFAULT NOW()\n\t\t)\n\t"

abbrev pub select_version : String
select_version = "SELECT EXISTS(SELECT 1 FROM schema_migrations WHERE version = $1)"

abbrev pub insert_version : String
insert_version = "INSERT INTO schema_migrations (version) VALUES ($1)"

abbrev pub up_marker : String
up_marker = "-- +goose Up"

abbrev pub down_marker : String
down_marker = "-- +goose Down"

-- The loop of extractUpSQL, from a line on, by `inUp`.
unfoldable pub up_lines : Bool → List String → List String
up_lines in_up [] = []
up_lines in_up (line ∷ lines) = elim (same (trim_space line) up_marker) [
  | true ↦ up_lines true lines
  | false ↦ elim (same (trim_space line) down_marker) [
    | true ↦ []
    | false ↦ elim in_up [ true ↦ line ∷ up_lines true lines | false ↦ up_lines false lines ]
  ]
]

-- extractUpSQL
unfoldable pub extract_up_sql : String → String
unfolding up_lines
extract_up_sql content = join "\n" (up_lines false (split "\n" content))

-- `s < t` on Go strings, which compares bytes: in UTF-8 that is the order of the characters.
unfoldable pub text_lt : String → String → Bool
text_lt s String.[] = false
text_lt String.[] (String.◌∷◌ d t) = true
text_lt (String.◌∷◌ c s) (String.◌∷◌ d t) =
    let rest = text_lt s t in if code c == code d then rest else ltb (code c) (code d)

insert_text : String → List String → List String
insert_text s [] = s ∷ []
insert_text s (t ∷ ts) = let rest = t ∷ insert_text s ts in if text_lt t s then rest else s ∷ t ∷ ts

-- `sort.Strings`: equal texts cannot be told apart, so every way to sort gives the same list.
unfoldable pub sort_strings : List String → List String
unfolding insert_text text_lt
sort_strings [] = []
sort_strings (s ∷ ss) = insert_text s (sort_strings ss)

-- The names of the migrations, before they are sorted.
unfoldable pub sql_names : List FileEntry → List String
sql_names [] = []
sql_names (e ∷ es) =
    let rest = sql_names es in
    if not e.is_dir && has_suffix ".sql" e.name then e.name ∷ rest else rest

-- A computation that makes statements and may end with an error.
abbrev pub M : Type 0 → Type 0
M A = Log → Result MigrateError A × Log

abbrev pub continue : {A B : Type 0} → Result MigrateError A → (A → M B) → M B
continue (ok a) f l = f a l
continue (err e) f l = (err e, l)

infixl 5 ◌>>=◌ ◌>>◌
unfoldable pub ◌>>=◌ : {A B : Type 0} → M A → (A → M B) → M B
◌>>=◌ m f l = let r = m l in continue r.0 f r.1

abbrev pub ◌>>◌ : {B : Type 0} → M (Unit {0}) → M B → M B
m >> k = m >>= λ _. k

abbrev pub return : {A : Type 0} → A → M A
return a l = (ok a, l)

-- The answer, or the error with its text around it.
abbrev wrapped : {A : Type 0} → (String → MigrateError) → Result String A → Result MigrateError A
wrapped f (ok a) = ok a
wrapped f (err e) = err (f e)

abbrev done : (String → MigrateError) → Option String → Result MigrateError (Unit {0})
done f none = ok tt
done f (some e) = err (f e)

abbrev pub lift : {A : Type 0} → (String → MigrateError) → Result String A → M A
lift f r l = (wrapped f r, l)

module _ (db : Database) where
  -- `db.Pool.Exec`
  abbrev pub run_exec : (String → MigrateError) → String → List String → M (Unit {0})
  run_exec f text args l =
      let e = db.on_exec l text args in (done f e, Statement.exec text args e ∷ l)

  -- `db.Pool.QueryRow(…).Scan(&exists)`
  abbrev pub run_query : (String → MigrateError) → String → List String → M Bool
  run_query f text args l =
      let r = db.on_query l text args in (wrapped f r, Statement.query text args r ∷ l)

module _ (db : Database) (files : Embedded) where
  -- One file that is not recorded yet.
  unfoldable pub apply_file : String → M (Unit {0})
  apply_file name = do
    content ← lift (read_file name) (files.read_file (cat "migrations/" name))
    run_exec db (apply name) (extract_up_sql content) []
    run_exec db (record_version name) insert_version (name ∷ [])

  -- One pass of the loop over the files.
  unfoldable pub migrate_file : String → M (Unit {0})
  unfolding apply_file
  migrate_file name = do
    exists ← run_query db (check name) select_version (name ∷ [])
    if exists then return tt else apply_file name

  unfoldable pub migrate_files : List String → M (Unit {0})
  unfolding migrate_file
  migrate_files [] = return tt
  migrate_files (name ∷ names) = do migrate_file name; migrate_files names

  -- AutoMigrate
  unfoldable pub auto_migrate : M (Unit {0})
  unfolding migrate_files sort_strings sql_names
  auto_migrate = do
    run_exec db create_table create_versions []
    entries ← lift MigrateError.read_dir files.read_dir
    migrate_files (sort_strings (sql_names entries))
