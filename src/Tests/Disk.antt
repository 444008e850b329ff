-- ===== src/Tests/Disk.antt =====
-- A scan of a small disk.
use compose_cockpit.Base.{
  ℕ, String, false, not, Option, none, some, List, [], ◌∷◌, ◌++◌, ◌≡◌, refl, ap, sym, ◌∙◌, same,
  contains, filter, if◌then◌else◌, Bool-cases, inl, inr, arith,
}
use compose_cockpit.Base.Results.{ok}
use compose_cockpit.Base.Text.{cat}
use compose_cockpit.Discovery.Scanner.{
  Mode, symlink, directory, other, FileInfo, DirEntry, FileSystem, deduplicate_and_order,
  is_override,
}
use compose_cockpit.Discovery.Scanner.Order.{DistinctTexts, deduplicate_and_order-first_places}
use compose_cockpit.Discovery.Scanner.Walk.{Scan, walk}
use compose_cockpit.Discovery.Scanner.Walk.Bounds.{Kept, ReadsDirectories, walk-Kept}

abbrev info_of : String → Option FileInfo
info_of path =
    if same path "/p"
    then some (record { mode = directory; ino = 1 })
    else if same path "/p/web"
    then some (record { mode = directory; ino = 2 })
    else none

abbrev entries_of : String → Option (List DirEntry)
entries_of path =
    if same path "/p"
    then some (
        record { name = "compose.yml"; mode = other }
        ∷ record { name = "web"; mode = directory }
        ∷ [])
    else if same path "/p/web"
    then some (record { name = ".env"; mode = other } ∷ [])
    else none

abbrev pub disk : FileSystem
disk = record {
  lstat = info_of;
  stat = info_of;
  eval_symlinks = λ path. some path;
  read_dir = entries_of;
  join = λ dir name. cat dir (cat "/" name);
  base = λ path. path;
  abs = λ path. some path;
}

abbrev mode_of : Option FileInfo → Mode
mode_of none = symlink
mode_of (some info) = info.mode

-- A path that is a directory is nothing else.
not_other :
    {A : Type 0} (path : String) (info : FileInfo) (i : ℕ)
    → info_of path ≡ some (record { mode = directory; ino = i })
    → info_of path ≡ some info
    → info.mode ≡ other
    → A
not_other path info i d e m =
    let same_mode : directory ≡ info.mode = ap mode_of (sym d ∙ e) in absurd cc

disk_reads : ReadsDirectories disk
disk_reads path info e m = elim (Bool-cases (same path "/p")) [
  | inl p ↦ not_other path info 1 (rw p refl) e m
  | inr p ↦ elim (Bool-cases (same path "/p/web")) [
    | inl q ↦ not_other path info 2 (rw (p, q) refl) e m
    | inr q ↦ rw (p, q) refl
  ]
]

abbrev start : Scan
start = record { visited = []; projects = []; calls = 0 }

walk-Kept_example : (s' : Scan) × (walk disk (λ k. false) 11 "/p" start ≡ ok s') × Kept s'
walk-Kept_example =
    walk-Kept disk (λ k. false) (λ k. refl) disk_reads 11 "/p" start (tt, omega arith)

abbrev files : List String
files = "compose.override.yml" ∷ "compose.yml" ∷ "compose.yml" ∷ []

deduplicate_and_order-first_places_example :
    DistinctTexts ("compose.override.yml" ∷ "compose.yml" ∷ [])
    × ((g : String) → contains g ("compose.override.yml" ∷ "compose.yml" ∷ []) ≡ contains g files)
    × (deduplicate_and_order disk files
        ≡ filter (λ f. not (is_override disk f)) ("compose.override.yml" ∷ "compose.yml" ∷ [])
          ++ filter (is_override disk) ("compose.override.yml" ∷ "compose.yml" ∷ []))
deduplicate_and_order-first_places_example = deduplicate_and_order-first_places disk files

ordered : deduplicate_and_order disk files ≡ "compose.yml" ∷ "compose.override.yml" ∷ []
unfolding deduplicate_and_order compose_cockpit.Docker.History.contains_text
ordered = refl
