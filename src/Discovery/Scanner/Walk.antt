-- ===== src/Discovery/Scanner/Walk.antt =====
-- Scan and walk of internal/discovery/scanner.go. The context is asked once in each call of walk:
-- whether it has ended by then is a function of the number of calls before. The depth is asked against
-- maxDepth, so `suc max_depth` levels are left at first, and a level fewer in each nested call.
pub mod Bounds
use package.text.Mathlib.Text.{starts_with}
use compose_cockpit.Base.{
  ℕ, zero, suc, String, Bool, true, false, ◌||◌, Option, none, some, List, [], ◌∷◌, ◌++◌, same,
  ◌==◌, if◌then◌else◌,
}
use compose_cockpit.Base.Results.{Result, ok, err, ◌>>=◌}
use compose_cockpit.Discovery.Scanner.{
  DiscoveredProject, Mode, symlink, directory, other, DirEntry, FileInfo, FileSystem,
  deduplicate_and_order, compose_files_of, env_files_of,
}

-- What walk changes: the inodes seen, the projects found, and how often the context was asked.
pub record Scan : Type 0 where
  pub visited : List ℕ
  pub projects : List DiscoveredProject
  pub calls : ℕ

pub data ScanError : Type 0 where
  no_root context_ended : ScanError

abbrev asked : Scan → Scan
asked s = record { visited = s.visited; projects = s.projects; calls = suc s.calls }

abbrev pub seen_ino : ℕ → List ℕ → Bool
seen_ino i [] = false
seen_ino i (j ∷ js) = let rest = seen_ino i js in if i == j then true else rest

-- `visited[stat.Ino] = struct{}{}`
abbrev visit_inode : ℕ → Scan → Scan
visit_inode i s = record { visited = i ∷ s.visited; projects = s.projects; calls = s.calls }

-- A directory that was not seen is read from now on, under the given path.
abbrev unseen : String → ℕ → Scan → Option (String × Scan)
unseen path i s = if seen_ino i s.visited then none else some (path, visit_inode i s)

-- Hidden directories, node_modules and vendor.
unfoldable pub skipped_name : String → Bool
skipped_name name = starts_with name "." || same name "node_modules" || same name "vendor"

abbrev passed_over : DirEntry → Bool
passed_over e = elim e.mode [
  | other ↦ true
  | symlink ↦ skipped_name e.name
  | directory ↦ skipped_name e.name
]

-- What walk does with the answer of os.Stat for the target of a symbolic link.
linked : String → Option FileInfo → Scan → Option (String × Scan)
linked real_path none s = none
linked real_path (some info) s = elim info.mode [
  | directory ↦ unseen real_path info.ino s
  | symlink ↦ none
  | other ↦ none
]

module _ (fs : FileSystem) where
  followed : Option String → Scan → Option (String × Scan)
  unfolding linked
  followed none s = none
  followed (some real_path) s = linked real_path (fs.stat real_path) s

  -- With the answer of os.Lstat: the path to read, if walk does not return before.
  entered : String → Option FileInfo → Scan → Option (String × Scan)
  unfolding followed
  entered current none s = none
  entered current (some info) s = elim info.mode [
    | symlink ↦ followed (fs.eval_symlinks current) s
    | directory ↦ unseen current info.ino s
    | other ↦ some (current, s)
  ]

  with_project : String → List DirEntry → List String → Scan → Scan
  unfolding deduplicate_and_order env_files_of
  with_project current entries [] s = s
  with_project current entries (f ∷ files) s = record {
    visited = s.visited;
    projects =
        s.projects
        ++ record {
          path = current;
          compose_files = deduplicate_and_order fs (f ∷ files);
          env_files = env_files_of fs current entries;
        }
          ∷ [];
    calls = s.calls;
  }

  -- The loop over the children; the nested call is an argument.
  walk_entries :
      (String → Scan → Result ScanError Scan)
      → String
      → List DirEntry
      → Scan
      → Result ScanError Scan
  walk_entries nested current [] s = ok s
  walk_entries nested current (e ∷ es) s =
      if passed_over e
      then walk_entries nested current es s
      else nested (fs.join current e.name) s >>= walk_entries nested current es

  read_into :
      (String → Scan → Result ScanError Scan)
      → String
      → Option (List DirEntry)
      → Scan
      → Result ScanError Scan
  unfolding with_project walk_entries compose_files_of
  read_into nested current none s = ok s
  read_into nested current (some entries) s =
      walk_entries nested current entries
        (with_project current entries (compose_files_of fs current entries) s)

  walk_in :
      (String → Scan → Result ScanError Scan)
      → Option (String × Scan)
      → Scan
      → Result ScanError Scan
  unfolding read_into
  walk_in nested none s = ok s
  walk_in nested (some (dir, s')) s = read_into nested dir (fs.read_dir dir) s'

  module _ (ended : ℕ → Bool) where
    unfoldable pub walk : ℕ → String → Scan → Result ScanError Scan
    unfolding entered walk_in
    walk zero current s = if ended s.calls then err context_ended else ok (asked s)
    walk (suc n) current s =
        if ended s.calls
        then err context_ended
        else walk_in (walk n) (entered current (fs.lstat current) (asked s)) (asked s)

    abbrev found_projects : Scan → Result ScanError (List DiscoveredProject)
    found_projects s = ok s.projects

    unfoldable pub scan : ℕ → String → Result ScanError (List DiscoveredProject)
    unfolding walk
    scan max_depth root_dir = elim (fs.abs root_dir) [
      | none ↦ err no_root
      | some root ↦
          walk (suc max_depth) root (record { visited = []; projects = []; calls = 0 })
          >>= found_projects
    ]
