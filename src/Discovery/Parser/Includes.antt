-- ===== src/Discovery/Parser/Includes.antt =====
-- resolveIncludes of internal/discovery/parser.go never fails.
use compose_cockpit.Base.{ℕ, zero, suc, String, true, List, [], ◌∷◌, ◌≡◌, refl}
use compose_cockpit.Base.Dict.{Dict, lookup}
use compose_cockpit.Base.Results.{Result, ok, err, ◌>>=◌}
use compose_cockpit.Discovery.Value.{Value, null, bool, int, number, text, list, mapping, strings}
use compose_cockpit.Discovery.Compose.{ComposeFile, merge_into}
use compose_cockpit.Discovery.Compose.Services.{defined, merge_into-keeps}
use compose_cockpit.Discovery.Parser.{
  Surroundings, ParseError, IncludeRef, parse_file, include_env, include_all, parse_include_entries,
  without_include, unless_null, resolve_includes,
}

module _ (around : Surroundings) where
  -- A result in which no service is lost.
  abbrev pub Keeps : ComposeFile → Result ParseError ComposeFile → Type 0
  Keeps cf r =
      (cf' : ComposeFile) × (r ≡ ok cf')
      × ((name : String)
          → defined (lookup name cf.services) ≡ true
          → defined (lookup name cf'.services) ≡ true)

  module _ (nested : String → ComposeFile → Dict String → Result ParseError ComposeFile)
      (total : (dir : String) (cf : ComposeFile) (env : Dict String)
        → Keeps cf (nested dir cf env)) where
    passed_or_merged :
        (ref : IncludeRef) (refs : List IncludeRef) (env : Dict String) (cf : ComposeFile)
        → ((full : ComposeFile) → Keeps full (include_all around nested refs env full))
        → Keeps cf (include_all around nested (ref ∷ refs) env cf)
    unfolding include_all
    passed_or_merged ref refs env cf rest =
        go (parse_file around ref.path (include_env around ref env)) refl
      where
        go :
            (r : Result ParseError ComposeFile)
            → parse_file around ref.path (include_env around ref env) ≡ r
            → Keeps cf (include_all around nested (ref ∷ refs) env cf)
        go (err e) p = rw (include_all, p) (rest cf)
        go (ok inc) p =
            let (full, e, k) = total (around.dir ref.path) inc (include_env around ref env) in
            let (cf', e', k') = rest (merge_into cf full) in
            (cf', rw (include_all, p, e) e', λ name d. k' name (merge_into-keeps name cf full d))

    include_all-Keeps :
        (refs : List IncludeRef) (env : Dict String) (cf : ComposeFile)
        → Keeps cf (include_all around nested refs env cf)
    unfolding include_all
    include_all-Keeps [] env cf = (cf, refl, λ name d. d)
    include_all-Keeps (ref ∷ refs) env cf =
        passed_or_merged ref refs env cf (λ full. include_all-Keeps refs env full)

  unless_null-Keeps :
      (v : Value) (cf : ComposeFile) (x y : Result ParseError ComposeFile)
      → Keeps cf x
      → Keeps cf y
      → Keeps cf (unless_null v x y)
  unfolding unless_null
  unless_null-Keeps null cf x y hx hy = hx
  unless_null-Keeps (bool b) cf x y hx hy = hy
  unless_null-Keeps (int t) cf x y hx hy = hy
  unless_null-Keeps (number t) cf x y hx hy = hy
  unless_null-Keeps (text t) cf x y hx hy = hy
  unless_null-Keeps (list vs) cf x y hx hy = hy
  unless_null-Keeps (mapping es) cf x y hx hy = hy
  unless_null-Keeps (strings m) cf x y hx hy = hy

  -- Resolving the includes of a file never fails, whatever they are and however deep they nest, and no
  -- service of the file is lost.
  resolve_includes-Keeps :
      (n : ℕ) (dir : String) (cf : ComposeFile) (env : Dict String)
      → Keeps cf (resolve_includes around n dir cf env)
  unfolding resolve_includes
  resolve_includes-Keeps zero dir cf env = (cf, refl, λ name d. d)
  resolve_includes-Keeps (suc n) dir cf env =
      let (full, e, k) =
        include_all-Keeps (resolve_includes around n) (resolve_includes-Keeps n)
          (parse_include_entries around dir cf.include) env cf in
      let result : Keeps cf (
          include_all around (resolve_includes around n)
            (parse_include_entries around dir cf.include) env cf
          >>= without_include around) =
        (
          record {
            services = full.services;
            networks = full.networks;
            volumes = full.volumes;
            include = null;
          },
          rw e refl,
          k,
        ) in
      unless_null-Keeps cf.include cf (ok cf) _ (cf, refl, λ name d. d) result
