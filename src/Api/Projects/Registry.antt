-- ===== src/Api/Projects/Registry.antt =====
-- What the registry of internal/api/handlers/project_handler.go holds after a scan.
use compose_cockpit.Base.{
  ℕ, String, Bool, true, false, Option, none, some, List, [], ◌∷◌, ◌≡◌, ◌⊎◌, refl, sym, ap, ◌∙◌,
  same, if◌then◌else◌, In, inl, inr, same_self, eq_of_same,
}
use compose_cockpit.Base.Dict.{lookup, insert, lookup-insert}
use compose_cockpit.Base.Results.{Result, ok, err, ok-injective}
use compose_cockpit.Discovery.Compose.Services.{defined}
use compose_cockpit.Domain.Project.{Project}
use compose_cockpit.Discovery.Scanner.{FileSystem, DiscoveredProject}
use compose_cockpit.Discovery.Scanner.Walk.{scan}
use compose_cockpit.Discovery.Parser.{Surroundings, ParseError}
use compose_cockpit.Discovery.Parser.Parse.{parse_project}
use compose_cockpit.Api.Projects.{
  known, Projects, add_parsed, parse_all, after_scan, trigger_scan, get_project,
}

abbrev project_or : Project → Option Project → Project
project_or q none = q
project_or q (some p) = p

known-ok : (o : Option Project) (p : Project) → known o ≡ ok p → o ≡ some p
unfolding known
known-ok none p e = absurd cc
known-ok (some q) p e = ap some (ok-injective q p e)

some_of : (o : Option Project) → defined o ≡ true → (q : Project) × (o ≡ some q)
some_of none d = absurd cc
some_of (some q) d = (q, refl)

module _ (around : Surroundings) where
  -- A directory of the list that parses to the project.
  abbrev pub Source : Project → List DiscoveredProject → Type 0
  Source p discovered =
      (disc : DiscoveredProject) × In disc discovered × (parse_project around disc ≡ ok p)

  later :
      (p : Project) (d : DiscoveredProject) (ds : List DiscoveredProject)
      → Source p ds
      → Source p (d ∷ ds)
  later p d ds (disc, i, e) = (disc, inr i, e)

  replaced_or_kept :
      (id : String) (p q : Project) (d : DiscoveredProject) (ds : List DiscoveredProject)
      (projects : Projects) (b : Bool)
      → parse_project around d ≡ ok q
      → same q.id id ≡ b
      → (if b then some q else lookup id projects) ≡ some p
      → (lookup id projects ≡ some p) ⊎ ((p.id ≡ id) × Source p (d ∷ ds))
  replaced_or_kept id p q d ds projects false r s e = inl e
  replaced_or_kept id p q d ds projects true r s e =
      let one : q ≡ p = ap (project_or q) e in
      inr (ap (λ z. z.id) (sym one) ∙ eq_of_same q.id id s, (d, inl refl, r ∙ ap ok one))

  added :
      (id : String) (p q : Project) (d : DiscoveredProject) (ds : List DiscoveredProject)
      (projects : Projects)
      → parse_project around d ≡ ok q
      → lookup id (insert q.id q projects) ≡ some p
      → (lookup id projects ≡ some p) ⊎ ((p.id ≡ id) × Source p (d ∷ ds))
  added id p q d ds projects r e =
      replaced_or_kept id p q d ds projects (same q.id id) r refl
        (sym (lookup-insert q.id id q projects) ∙ e)

  -- An entry is an old one or comes from a directory, and is kept under its own identifier.
  lookup-parse_all :
      (id : String) (p : Project) (discovered : List DiscoveredProject) (projects : Projects)
      → lookup id (parse_all around discovered projects) ≡ some p
      → (lookup id projects ≡ some p) ⊎ ((p.id ≡ id) × Source p discovered)
  unfolding parse_all add_parsed
  lookup-parse_all id p [] projects e = inl e
  lookup-parse_all id p (d ∷ ds) projects e =
      parsed (parse_project around d) refl
        (lookup-parse_all id p ds (add_parsed around (parse_project around d) projects) e)
    where
      parsed :
          (r : Result ParseError Project)
          → parse_project around d ≡ r
          → (lookup id (add_parsed around (parse_project around d) projects) ≡ some p)
            ⊎ ((p.id ≡ id) × Source p ds)
          → (lookup id projects ≡ some p) ⊎ ((p.id ≡ id) × Source p (d ∷ ds))
      parsed r q (inr (i, s)) = inr (i, later p d ds s)
      parsed (err x) q (inl l) =
          inl (ap (λ z. lookup id (add_parsed around z projects)) (sym q) ∙ l)
      parsed (ok x) q (inl l) =
          added id p x d ds projects q
            (ap (λ z. lookup id (add_parsed around z projects)) (sym q) ∙ l)

  from_scan :
      (id : String) (p : Project) (discovered : List DiscoveredProject)
      → (lookup {V = Project} id [] ≡ some p) ⊎ ((p.id ≡ id) × Source p discovered)
      → (p.id ≡ id) × Source p discovered
  from_scan id p discovered (inl e) = absurd cc
  from_scan id p discovered (inr h) = h

  add_parsed-keeps :
      (id : String) (r : Result ParseError Project) (projects : Projects)
      → defined (lookup id projects) ≡ true
      → defined (lookup id (add_parsed around r projects)) ≡ true
  unfolding add_parsed
  add_parsed-keeps id (err x) projects d = d
  add_parsed-keeps id (ok p) projects d =
      ap defined (lookup-insert p.id id p projects) ∙ still (same p.id id) d
    where
      still :
          (b : Bool)
          → defined (lookup id projects) ≡ true
          → defined (if b then some p else lookup id projects) ≡ true
      still true h = refl
      still false h = h

  parse_all-keeps :
      (id : String) (discovered : List DiscoveredProject) (projects : Projects)
      → defined (lookup id projects) ≡ true
      → defined (lookup id (parse_all around discovered projects)) ≡ true
  unfolding parse_all
  parse_all-keeps id [] projects d = d
  parse_all-keeps id (disc ∷ ds) projects d =
      parse_all-keeps id ds (add_parsed around (parse_project around disc) projects)
        (add_parsed-keeps id (parse_project around disc) projects d)

  In-parse_all :
      (disc : DiscoveredProject) (p : Project) (discovered : List DiscoveredProject)
      (projects : Projects)
      → In disc discovered
      → parse_project around disc ≡ ok p
      → defined (lookup p.id (parse_all around discovered projects)) ≡ true
  unfolding parse_all add_parsed
  In-parse_all disc p [] projects i e = absurd i
  In-parse_all disc p (d ∷ ds) projects (inr i) e =
      In-parse_all disc p ds (add_parsed around (parse_project around d) projects) i e
  In-parse_all disc p (d ∷ ds) projects (inl same_one) e =
      let parsed : parse_project around d ≡ ok p = ap (parse_project around) (sym same_one) ∙ e in
      let entry : lookup p.id (add_parsed around (ok p) projects) ≡ some p =
        lookup-insert p.id p.id p projects
        ∙ ap (λ b. if b then some p else lookup p.id projects) (same_self p.id) in
      parse_all-keeps p.id ds (add_parsed around (parse_project around d) projects)
        (ap (λ r. defined (lookup p.id (add_parsed around r projects))) parsed ∙ ap defined entry)

  module _ (fs : FileSystem) (ended : ℕ → Bool) (max_depth : ℕ) (root_dir : String) where
    -- A scan that succeeds replaces the registry: a project that is found there afterwards was parsed
    -- from a directory of that scan, and stands under its own identifier.
    pub trigger_scan-get_project :
        (discovered : List DiscoveredProject) (projects : Projects) (id : String) (p : Project)
        → scan fs ended max_depth root_dir ≡ ok discovered
        → get_project id (trigger_scan around fs ended max_depth root_dir projects).1 ≡ ok p
        → (p.id ≡ id) × Source p discovered
    unfolding trigger_scan after_scan get_project known
    trigger_scan-get_project discovered projects id p found e =
        let entry : lookup id (parse_all around discovered []) ≡ some p = known-ok _ p (
          ap (λ r. known (lookup id (after_scan around fs ended max_depth root_dir r projects).1))
            (sym found)
          ∙ e) in
        from_scan id p discovered (lookup-parse_all id p discovered [] entry)

    -- A scan that succeeds registers every project that it finds and can parse: its identifier is known
    -- afterwards.
    pub trigger_scan-registers :
        (discovered : List DiscoveredProject) (projects : Projects) (disc : DiscoveredProject)
        (p : Project)
        → scan fs ended max_depth root_dir ≡ ok discovered
        → In disc discovered
        → parse_project around disc ≡ ok p
        → (q : Project) × (get_project p.id
              (trigger_scan around fs ended max_depth root_dir projects).1
            ≡ ok q)
    unfolding trigger_scan after_scan get_project known
    trigger_scan-registers discovered projects disc p found i e =
        let (q, there) = some_of _ (In-parse_all disc p discovered [] i e) in
        (
          q,
          ap (λ r. known (lookup p.id (after_scan around fs ended max_depth root_dir r projects).1))
                found
              ∙ ap known there,
        )
