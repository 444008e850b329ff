-- ===== src/Discovery/Value.antt =====
-- The `interface{}` values that internal/discovery/parser.go gets from the YAML library, and how it
-- reads them. The library and the format itself are outside the repository.
use package.text.Mathlib.Text.{is_lt}
use Prim.Native.String.{compare}
use compose_cockpit.Base.{
  String, Bool, true, false, Option, none, some, List, [], ◌∷◌, same, if◌then◌else◌,
}
use compose_cockpit.Base.Text.{cat}
use compose_cockpit.Base.Dict.{Dict}

-- A number is kept as the text that `%v` prints for it; `int` is a Go int, `number` any other.
-- `strings` is a map[string]string, which the parser itself makes.
mutual
  pub data Value : Type 0 where
    null : Value
    bool : Bool → Value
    int : String → Value
    number : String → Value
    text : String → Value
    list : Values → Value
    mapping : Entries → Value
    strings : Dict String → Value

  pub data Values : Type 0 where
    no_values : Values
    item : Value → Values → Values

  pub data Entries : Type 0 where
    no_entries : Entries
    entry : String → Value → Entries → Entries

-- `val[key]`; a YAML map has each key once.
unfoldable pub field : String → Entries → Value
field k no_entries = null
field k (entry j v es) = let later = field k es in if same j k then v else later

-- `_, ok := val[key]`
unfoldable pub has_field : String → Entries → Bool
has_field k no_entries = false
has_field k (entry j v es) = let later = has_field k es in if same j k then true else later

-- `v.(string)`, with its `ok`.
unfoldable pub as_text : Value → Option String
as_text (text s) = some s
as_text _ = none

-- `if s, ok := v.(string); ok { x = s }`
abbrev pub text_or : String → Value → String
text_or old v = elim (as_text v) [ none ↦ old | some s ↦ s ]

-- fmt prints the entries of a map in the order of its keys.
insert_key : String → String → Dict String → Dict String
insert_key k v [] = (k, v) ∷ []
insert_key k v ((j, w) ∷ m) =
    let later = insert_key k v m in
    if is_lt (compare k j) then (k, v) ∷ (j, w) ∷ m else (j, w) ∷ later

-- With a blank before each but the first.
join_entries : Bool → Dict String → String
join_entries first [] = ""
join_entries first ((k, v) ∷ m) =
    cat (if first then "" else " ") (cat k (cat ":" (cat v (join_entries false m))))

sort_keys : Dict String → Dict String
sort_keys [] = []
sort_keys ((k, v) ∷ m) = insert_key k v (sort_keys m)

-- `fmt.Sprintf("%v", v)`
unfoldable mutual
  unfolding insert_key sort_keys join_entries

  pub sprint : Value → String
  sprint null = "<nil>"
  sprint (bool true) = "true"
  sprint (bool false) = "false"
  sprint (int t) = t
  sprint (number t) = t
  sprint (text s) = s
  sprint (list vs) = cat "[" (cat (sprint_values true vs) "]")
  sprint (mapping es) = cat "map[" (cat (join_entries true (sort_keys (printed_entries es))) "]")
  sprint (strings m) = cat "map[" (cat (join_entries true (sort_keys m)) "]")

  sprint_values : Bool → Values → String
  sprint_values first no_values = ""
  sprint_values first (item v vs) =
      cat (if first then "" else " ") (cat (sprint v) (sprint_values false vs))

  -- The printed map, in the order in which a loop visits it.
  pub printed_entries : Entries → Dict String
  printed_entries no_entries = []
  printed_entries (entry k v es) = (k, sprint v) ∷ printed_entries es

-- The printed values of a list.
unfoldable pub printed_values : Values → List String
printed_values no_values = []
printed_values (item v vs) = sprint v ∷ printed_values vs
