-- ===== src/Discovery/EnvFile.antt =====
-- parseEnvFile, loadEnvFiles and getOSEnv of internal/discovery/parser.go. A file is read as the text
-- that the surroundings give for its path; bufio.Scanner's limit on the length of a line is left out.
pub mod RoundTrip
use Prim.Native.Char.{Char}
use package.text.Mathlib.Text.{starts_with}
use compose_cockpit.Base.{
  String, Bool, true, false, ◌||◌, Option, none, some, List, [], ◌∷◌, same, if◌then◌else◌,
}
use compose_cockpit.Base.Dict.{Dict, insert}
use compose_cockpit.Base.Text.{is_char, cut, split, trim_space, trim_left, trim_right}

-- `strings.Trim(val, "\"'")`
quote : Char → Bool
quote c = is_char "\"" c || is_char "'" c

unfoldable pub trim_quotes : String → String
unfolding quote
trim_quotes s = trim_right quote (trim_left quote s)

abbrev pub key_value : String × String → String × String
key_value p = (trim_space p.0, trim_quotes (trim_space p.1))

-- A line after TrimSpace: a blank line, a comment and a line without "=" give nothing.
env_pair : String → Option (String × String)
env_pair line =
    if same line "" || starts_with line "#"
    then none
    else elim (cut "=" line) [ none ↦ none | some p ↦ some (key_value p) ]

abbrev insert_some : Option (String × String) → Dict String → Dict String
insert_some none env = env
insert_some (some p) env = insert p.0 p.1 env

-- `for scanner.Scan() { ... }`
env_lines : List String → Dict String → Dict String
unfolding env_pair
env_lines [] env = env
env_lines (l ∷ ls) env = env_lines ls (insert_some (env_pair (trim_space l)) env)

-- The content of a file; a line ends at "\n", and TrimSpace takes a "\r" away.
unfoldable pub parse_env_text : String → Dict String → Dict String
unfolding env_lines
parse_env_text content env = env_lines (split "\n" content) env

-- parseEnvFile: a file that cannot be opened adds nothing.
unfoldable pub parse_env_file : (String → Option String) → String → Dict String → Dict String
parse_env_file read path env = elim (read path) [
  | none ↦ env
  | some content ↦ parse_env_text content env
]

-- `for _, f := range files { parseEnvFile(f, env) }`
unfoldable pub parse_env_files : (String → Option String) → List String → Dict String → Dict String
parse_env_files read [] env = env
parse_env_files read (f ∷ fs) env = parse_env_files read fs (parse_env_file read f env)

-- loadEnvFiles
unfoldable pub load_env_files : (String → Option String) → List String → Dict String
load_env_files read files = parse_env_files read files []

-- getOSEnv of the process environment `environ`.
unfoldable pub os_env : List String → Dict String → Dict String
os_env [] env = env
os_env (kv ∷ kvs) env = elim (cut "=" kv) [
  | none ↦ os_env kvs (insert kv "" env)
  | some p ↦ os_env kvs (insert p.0 p.1 env)
]

unfoldable pub get_os_env : List String → Dict String
unfolding os_env
get_os_env environ = os_env environ []
