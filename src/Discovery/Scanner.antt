-- ===== src/Discovery/Scanner.antt =====
-- internal/discovery/scanner.go: the search for compose files below a directory. The file system is
-- outside the repository and answers the same throughout a scan.
pub mod Order
pub mod Walk
use Prim.Native.Char.{Char, code}
use Prim.Native.String
use compose_cockpit.Base.{
  ℕ, zero, suc, ◌+◌, String, Bool, true, false, ◌||◌, ◌&&◌, Option, none, some, List, [], ◌∷◌, ◌++◌,
  same, leb, ◌==◌, if◌then◌else◌, contains,
}
use compose_cockpit.Docker.History.{contains_text}
use compose_cockpit.Base.Text.{equal_fold}

unfoldable pub compose_file_names : List String
compose_file_names =
    "docker-compose.yml" ∷ "docker-compose.yaml" ∷ "compose.yml" ∷ "compose.yaml" ∷ []

unfoldable pub override_patterns : List String
override_patterns =
    "docker-compose.override.yml" ∷ "docker-compose.override.yaml" ∷ "compose.override.yml"
    ∷ "compose.override.yaml" ∷ []

pub record DiscoveredProject : Type 0 where
  pub path : String
  pub compose_files : List String
  pub env_files : List String

-- What the code asks of fs.FileInfo.
pub data Mode : Type 0 where
  symlink directory other : Mode

pub record FileInfo : Type 0 where
  pub mode : Mode
  pub ino : ℕ

pub record DirEntry : Type 0 where
  pub name : String
  pub mode : Mode

-- os.Lstat, os.Stat, filepath.EvalSymlinks and os.ReadDir, which may fail, and functions on paths.
pub record FileSystem : Type 0 where
  pub lstat : String → Option FileInfo
  pub stat : String → Option FileInfo
  pub eval_symlinks : String → Option String
  pub read_dir : String → Option (List DirEntry)
  pub join : String → String → String
  pub base : String → String
  pub abs : String → Option String

-- One path for each name of the list that the entry's name matches.
matching : String → String → List String → List String
unfolding equal_fold
matching path name [] = []
matching path name (f ∷ fs) =
    let rest = matching path name fs in if equal_fold name f then path ∷ rest else rest

-- The locals of deduplicateAndOrder.
pub record Sorted : Type 0 where
  pub seen : List String
  pub primary : List String
  pub overrides : List String

module _ (fs : FileSystem) where
  unfoldable pub is_override : String → Bool
  is_override f = contains_text (fs.base f) "override"

  sort_file : String → Sorted → Sorted
  unfolding is_override
  sort_file f s =
      if contains f s.seen
      then s
      else if is_override f
      then record { seen = f ∷ s.seen; primary = s.primary; overrides = s.overrides ++ f ∷ [] }
      else record { seen = f ∷ s.seen; primary = s.primary ++ f ∷ []; overrides = s.overrides }

  sort_files : List String → Sorted → Sorted
  unfolding sort_file
  sort_files [] s = s
  sort_files (f ∷ files) s = sort_files files (sort_file f s)

  abbrev in_order : Sorted → List String
  in_order s = s.primary ++ s.overrides

  unfoldable pub deduplicate_and_order : List String → List String
  unfolding sort_files
  deduplicate_and_order files =
      in_order (sort_files files (record { seen = []; primary = []; overrides = [] }))

  -- The loop over the entries of a directory.
  unfoldable pub compose_files_of : String → List DirEntry → List String
  unfolding matching compose_file_names override_patterns
  compose_files_of current [] = []
  compose_files_of current (e ∷ es) =
      let path = fs.join current e.name in
      matching path e.name compose_file_names
      ++ (matching path e.name override_patterns ++ compose_files_of current es)

  unfoldable pub env_files_of : String → List DirEntry → List String
  env_files_of current [] = []
  env_files_of current (e ∷ es) =
      let rest = env_files_of current es in
      if same e.name ".env" then fs.join current e.name ∷ rest else rest

module _ (sha256 : String → List ℕ) (encode_to_string : List ℕ → String) where
  first_bytes : ℕ → List ℕ → List ℕ
  first_bytes zero bytes = []
  first_bytes (suc n) [] = []
  first_bytes (suc n) (b ∷ bytes) = b ∷ first_bytes n bytes

  -- GenerateProjectID
  unfoldable pub generate_project_id : String → String
  unfolding first_bytes
  generate_project_id path = encode_to_string (first_bytes 12 (sha256 path))
