-- ===== src/Discovery/Scanner/Walk/Bounds.antt =====
-- What a scan of internal/discovery/scanner.go keeps, and that it gives a result.
use compose_cockpit.Base.{
  ℕ, zero, suc, ◌≤◌, String, Bool, false, Option, none, some, List, [], ◌∷◌, ◌≡◌, refl, ◌⊎◌, length,
  length-append, Bool-cases, inl, inr, arith,
}
use compose_cockpit.Base.Results.{Result, ok}
use compose_cockpit.Discovery.Scanner.{
  Mode, symlink, directory, other, DirEntry, FileInfo, FileSystem, compose_files_of,
}
use compose_cockpit.Discovery.Scanner.Walk.{
  Scan, ScanError, seen_ino, asked, unseen, linked, followed, entered, with_project, walk_entries,
  read_into, walk_in, walk, passed_over,
}

-- No inode stands in the list twice.
abbrev pub DistinctInodes : List ℕ → Type 0
DistinctInodes [] = Unit
DistinctInodes (i ∷ is) = (seen_ino i is ≡ false) × DistinctInodes is

-- Each directory is entered once, and gives one project at most.
abbrev pub Kept : Scan → Type 0
Kept s = DistinctInodes s.visited × (length s.projects ≤ length s.visited)

-- A directory that was just entered has room for its project.
abbrev Roomy : FileSystem → String → Scan → Type 0
Roomy fs dir s =
    DistinctInodes s.visited
    × ((suc (length s.projects) ≤ length s.visited)
        ⊎ ((length s.projects ≤ length s.visited) × (fs.read_dir dir ≡ none)))

abbrev Entered : FileSystem → Option (String × Scan) → Type 0
Entered fs none = Unit
Entered fs (some p) = Roomy fs p.0 p.1

unseen-Entered :
    (fs : FileSystem) (path : String) (i : ℕ) (s : Scan) → Kept s → Entered fs (unseen path i s)
unseen-Entered fs path i s (d, l) = elim (Bool-cases (seen_ino i s.visited)) [
  | inl e ↦ rw e tt
  | inr e ↦ rw e ((e, d), inl (omega (arith, l)))
]

module _ (fs : FileSystem) where
  -- Only a directory can be read.
  abbrev pub ReadsDirectories : Type 0
  ReadsDirectories =
      (path : String) (info : FileInfo)
      → fs.lstat path ≡ some info
      → info.mode ≡ other
      → fs.read_dir path ≡ none

  linked-Entered :
      (path : String) (mode : Mode) (ino : ℕ) (s : Scan)
      → Kept s
      → Entered fs (linked path (some (record { mode = mode; ino = ino })) s)
  unfolding linked
  linked-Entered path directory i s k = unseen-Entered fs path i s k
  linked-Entered path symlink i s k = tt
  linked-Entered path other i s k = tt

  stat-Entered :
      (path : String) (o : Option FileInfo) (s : Scan) → Kept s → Entered fs (linked path o s)
  unfolding linked
  stat-Entered path none s k = tt
  stat-Entered path (some info) s k = linked-Entered path info.mode info.ino s k

  followed-Entered : (o : Option String) (s : Scan) → Kept s → Entered fs (followed fs o s)
  unfolding followed
  followed-Entered none s k = tt
  followed-Entered (some path) s k = stat-Entered path (fs.stat path) s k

  entered-mode :
      ReadsDirectories
      → (path : String) (mode : Mode) (ino : ℕ) (s : Scan)
      → fs.lstat path ≡ some (record { mode = mode; ino = ino })
      → Kept s
      → Entered fs (entered fs path (some (record { mode = mode; ino = ino })) s)
  unfolding entered
  entered-mode plain path symlink i s e k = followed-Entered (fs.eval_symlinks path) s k
  entered-mode plain path directory i s e k = unseen-Entered fs path i s k
  entered-mode plain path other i s e (d, l) = (d, inr (l, plain path _ e refl))

  entered-Entered :
      ReadsDirectories
      → (path : String) (o : Option FileInfo) (s : Scan) → fs.lstat path ≡ o
      → Kept s
      → Entered fs (entered fs path o s)
  unfolding entered
  entered-Entered plain path none s e k = tt
  entered-Entered plain path (some info) s e k = entered-mode plain path info.mode info.ino s e k

  with_project-Kept :
      (dir : String) (es : List DirEntry) (files : List String) (s : Scan)
      → DistinctInodes s.visited
      → suc (length s.projects) ≤ length s.visited
      → Kept (with_project fs dir es files s)
  unfolding with_project
  with_project-Kept dir es [] s d l = (d, omega (arith, l))
  with_project-Kept dir es (f ∷ files) s d l =
      (d, rw (length-append s.projects (_ ∷ [])) (omega (arith, l)))

  -- A result that keeps the state in order.
  abbrev Gives : Result ScanError Scan → Type 0
  Gives r = (s' : Scan) × (r ≡ ok s') × Kept s'

  module _ (nested : String → Scan → Result ScanError Scan)
      (steps : (path : String) (s : Scan) → Kept s → Gives (nested path s)) where
    walk_entries-Gives :
        (dir : String) (es : List DirEntry) (s : Scan)
        → Kept s
        → Gives (walk_entries fs nested dir es s)
    unfolding walk_entries
    walk_entries-Gives dir [] s k = (s, refl, k)
    walk_entries-Gives dir (e ∷ es) s k = elim (Bool-cases (passed_over e)) [
      | inl p ↦ rw (walk_entries, p) (walk_entries-Gives dir es s k)
      | inr p ↦
          let (s', r, k') = steps (fs.join dir e.name) s k in
          rw (walk_entries, p, r) (walk_entries-Gives dir es s' k')
    ]

    read_into-Gives :
        (dir : String) (o : Option (List DirEntry)) (s : Scan)
        → fs.read_dir dir ≡ o
        → Roomy fs dir s
        → Gives (read_into fs nested dir o s)
    unfolding read_into
    read_into-Gives dir none s e (d, inl l) = (s, refl, (d, omega (arith, l)))
    read_into-Gives dir none s e (d, inr (l, absent)) = (s, refl, (d, l))
    read_into-Gives dir (some es) s e (d, inr (l, absent)) = absurd cc
    read_into-Gives dir (some es) s e (d, inl l) =
        walk_entries-Gives dir es _ (with_project-Kept dir es (compose_files_of fs dir es) s d l)

    walk_in-Gives :
        (o : Option (String × Scan)) (s : Scan)
        → Entered fs o
        → Kept s
        → Gives (walk_in fs nested o s)
    unfolding walk_in
    walk_in-Gives none s e k = (s, refl, k)
    walk_in-Gives (some (dir, s')) s e k = read_into-Gives dir (fs.read_dir dir) s' refl e

  module _ (ended : ℕ → Bool) where
    -- While the context has not ended, walk gives a result whatever the file system answers: it enters
    -- no directory twice and finds one project at most in each.
    pub walk-Kept :
        ((k : ℕ) → ended k ≡ false)
        → ReadsDirectories
        → (n : ℕ) (path : String) (s : Scan) → Kept s
        → (s' : Scan) × (walk fs ended n path s ≡ ok s') × Kept s'
    unfolding walk
    walk-Kept never plain zero path s k = rw (walk, never s.calls) (_, refl, k)
    walk-Kept never plain (suc n) path s k =
        rw (walk, never s.calls)
          (walk_in-Gives (walk fs ended n) (walk-Kept never plain n) _ (asked s)
            (entered-Entered plain path (fs.lstat path) (asked s) refl k) k)
