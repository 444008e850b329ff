-- ===== src/Store/Migrations/Repeats.antt =====
-- AutoMigrate of internal/store/migrate.go on a database that was migrated before.
use compose_cockpit.Base.{
  String, Option-cases, subst, false, true, Option, none, some, List, [], ◌∷◌, ◌++◌, ◌≡◌, ◌≢◌, refl,
  ap, sym, ◌∙◌, ◌⊎◌, inl, inr, In, In-append_right, All, arith,
}
use compose_cockpit.Base.Results.{ok, err, Result-cases, ok-injective}
use compose_cockpit.Store.Migrations.{
  Database, Embedded, FileEntry, continue, Statement, Log, MigrateError, ◌>>=◌, migrate_file,
  migrate_files, auto_migrate, select_version, insert_version, create_versions, sort_strings,
  sql_names,
}

-- The log shows that the table has a row for the file: it was found there, or it was put in.
abbrev pub Settled : Log → String → Type 0
Settled l name =
    In (Statement.query select_version (name ∷ []) (ok true)) l
    ⊎ In (Statement.exec insert_version (name ∷ []) none) l

-- Rows of schema_migrations are never removed.
pub record Keeps (db : Database) : Type 0 where
  pub kept :
      (name : String) (l : Log)
      → Settled l name
      → db.on_query l select_version (name ∷ []) ≢ ok false

-- The texts that Exec was called with, the last one first.
abbrev pub executed : Log → List String
executed [] = []
executed (Statement.exec text args e ∷ l) = text ∷ executed l
executed (Statement.query text args r ∷ l) = executed l

-- What the log showed before it shows afterwards.
abbrev Later : Log → Log → Type 0
Later l l' = (s : Statement) → In s l → In s l'

Settled-Later : (l l' : Log) (name : String) → Later l l' → Settled l name → Settled l' name
Settled-Later l l' name grows (inl h) = inl (grows _ h)
Settled-Later l l' name grows (inr h) = inr (grows _ h)

All-Later :
    (l l' : Log)
    → Later l l'
    → (names : List String) → All (Settled l) names
    → All (Settled l') names
All-Later l l' grows [] h = tt
All-Later l l' grows (name ∷ names) h =
    (Settled-Later l l' name grows h.0, All-Later l l' grows names h.1)

module _ (db : Database) (files : Embedded) where
  -- A pass that succeeds found the file recorded, or has applied and recorded it.
  migrate_file-ok :
      (name : String) (l : Log)
      → (migrate_file db files name l).0 ≡ ok tt
      → Settled (migrate_file db files name l).1 name
  unfolding migrate_file ◌>>=◌
  migrate_file-ok name l h = ground arith

  migrate_file-Later : (name : String) (l : Log) → Later l (migrate_file db files name l).1
  unfolding migrate_file ◌>>=◌
  migrate_file-Later name l s h = ground arith

  -- A file that is recorded is not applied again.
  migrate_file-idle :
      (name : String) (l : Log)
      → Keeps db
      → Settled l name
      → executed (migrate_file db files name l).1 ≡ executed l
  unfolding migrate_file ◌>>=◌
  migrate_file-idle name l keeps h = ground (arith, keeps.kept name l h)

  -- A loop goes on after a pass that succeeds, and ends with the error of one that fails.
  migrate_files-cons :
      (name : String) (names : List String) (l : Log)
      → ((migrate_file db files name l).0 ≡ ok tt
          × (migrate_files db files (name ∷ names) l
              ≡ migrate_files db files names (migrate_file db files name l).1))
        ⊎ ((e : MigrateError) × (migrate_files db files (name ∷ names) l
              ≡ (err e, (migrate_file db files name l).1)))
  unfolding migrate_files ◌>>=◌
  migrate_files-cons name names l = elim (Result-cases (migrate_file db files name l).0) [
    | inl (tt, e) ↦ inl (e, rw (e, continue) refl)
    | inr (x, e) ↦ inr (x, rw (e, continue) refl)
  ]

  migrate_files-Later : (names : List String) (l : Log) → Later l (migrate_files db files names l).1
  unfolding migrate_files
  migrate_files-Later [] l s h = h
  migrate_files-Later (name ∷ names) l s h = elim (migrate_files-cons name names l) [
    | inl (o, e) ↦ rw e (
        migrate_files-Later names (migrate_file db files name l).1 s
          (migrate_file-Later name l s h))
    | inr (x, e) ↦ rw e (migrate_file-Later name l s h)
  ]

  -- If all passes succeed, every file is recorded in the end.
  migrate_files-ok :
      (names : List String) (l : Log)
      → (migrate_files db files names l).0 ≡ ok tt
      → All (Settled (migrate_files db files names l).1) names
  migrate_files-ok [] l h = tt
  migrate_files-ok (name ∷ names) l h = elim (migrate_files-cons name names l) [
    | inl (o, e) ↦
        let l' = (migrate_file db files name l).1 in
        subst (λ r. Settled r.1 name × All (Settled r.1) names) (sym e)
          (
            Settled-Later l' _ name (migrate_files-Later names l') (migrate_file-ok name l o),
            migrate_files-ok names l' (sym (ap (λ r. r.0) e) ∙ h),
          )
    | inr (x, e) ↦ let f = ap (λ r. r.0) e in absurd (cc)
  ]

  migrate_files-idle :
      (names : List String) (l : Log)
      → Keeps db
      → All (Settled l) names
      → executed (migrate_files db files names l).1 ≡ executed l
  unfolding migrate_files
  migrate_files-idle [] l keeps h = refl
  migrate_files-idle (name ∷ names) l keeps h =
      let l' = (migrate_file db files name l).1 in
      let idle = migrate_file-idle name l keeps h.0 in
      elim (migrate_files-cons name names l) [
        | inl (o, e) ↦ rw e (
            migrate_files-idle names l' keeps (All-Later l l' (migrate_file-Later name l) names h.1)
            ∙ idle)
        | inr (x, e) ↦ rw e idle
      ]

  -- Either the migrations are run, or one of the steps before them fails.
  auto_migrate-cases :
      (l : Log)
      → ((x : MigrateError) × (e : Option String) × (auto_migrate db files l
            ≡ (err x, Statement.exec create_versions [] e ∷ l)))
        ⊎ ((entries : List FileEntry) × (files.read_dir ≡ ok entries)
            × (auto_migrate db files l
                ≡ migrate_files db files
                    (sort_strings (sql_names entries))
                    (Statement.exec create_versions [] none ∷ l)))
  unfolding auto_migrate ◌>>=◌
  auto_migrate-cases l = elim (Option-cases (db.on_exec l create_versions [])) [
    | inr (x, e) ↦ inl (MigrateError.create_table x, some x, rw (e, continue) refl)
    | inl e ↦ elim (Result-cases files.read_dir) [
      | inl (entries, f) ↦ inr (entries, f, rw (e, f, continue) refl)
      | inr (x, f) ↦ inl (MigrateError.read_dir x, none, rw (e, f, continue) refl)
    ]
  ]

  -- After AutoMigrate has succeeded every migration is recorded.
  auto_migrate-ok :
      (l : Log)
      → (auto_migrate db files l).0 ≡ ok tt
      → (entries : List FileEntry) × (files.read_dir ≡ ok entries)
        × All (Settled (auto_migrate db files l).1) (sort_strings (sql_names entries))
  auto_migrate-ok l h = elim (auto_migrate-cases l) [
    | inl (x, e, f) ↦ let g = ap (λ r. r.0) f in absurd (cc)
    | inr (entries, read, f) ↦
        let names = sort_strings (sql_names entries) in
        (
          entries,
          read,
          subst (λ r. All (Settled r.1) names) (sym f)
              (migrate_files-ok names _ (sym (ap (λ r. r.0) f) ∙ h)),
        )
  ]

  auto_migrate-idle :
      (l : Log) (entries : List FileEntry)
      → Keeps db
      → files.read_dir ≡ ok entries
      → All (Settled l) (sort_strings (sql_names entries))
      → executed (auto_migrate db files l).1 ≡ create_versions ∷ executed l
  auto_migrate-idle l entries keeps read h = elim (auto_migrate-cases l) [
    | inl (x, e, f) ↦ rw f refl
    | inr (entries', read', f) ↦
        let l' = Statement.exec create_versions [] none ∷ l in
        let same_entries = ok-injective entries entries' (sym read ∙ read') in
        rw f (
          migrate_files-idle (sort_strings (sql_names entries')) l' keeps (
            All-Later l l' (λ s m. inr m) _
              (subst (λ es. All (Settled l) (sort_strings (sql_names es))) same_entries h)))
  ]

  -- Once AutoMigrate has succeeded, a later run, whatever was done in between, executes nothing but the
  -- statement that creates the table of versions if it is missing, if no row of that table is removed.
  pub auto_migrate-again :
      (l later : Log)
      → Keeps db
      → (auto_migrate db files l).0 ≡ ok tt
      → let since = later ++ (auto_migrate db files l).1 in
        executed (auto_migrate db files since).1 ≡ create_versions ∷ executed since
  auto_migrate-again l later keeps h =
      let (entries, read, settled) = auto_migrate-ok l h in
      let l' = (auto_migrate db files l).1 in
      auto_migrate-idle (later ++ l') entries keeps read
        (All-Later l' (later ++ l') (λ s m. In-append_right s later l' m) _ settled)
