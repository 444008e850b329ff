-- ===== src/Discovery/Parser/Parse/Services.antt =====
-- The services and the errors of Parse of internal/discovery/parser.go.
use compose_cockpit.Base.{String, List, [], ◌∷◌, ◌++◌, map, ◌≡◌, refl, sym, ap, ◌∙◌}
use compose_cockpit.Base.Dict.{Dict}
use compose_cockpit.Base.Results.{ok, err, ◌>>=◌, ok-injective, bind-ok}
use compose_cockpit.Discovery.Scanner.{DiscoveredProject}
use compose_cockpit.Discovery.Compose.{ComposeService, ComposeFile, merge_into}
use compose_cockpit.Discovery.Parser.{Surroundings, ParseError, parse, parse_file}
use compose_cockpit.Discovery.Parser.Parse.{
  empty_file, to_service, to_project, env_vars, full_file, merge_files, extended, extend_services,
  env_service, project_services, parse_project,
}
use compose_cockpit.Domain.Project.{Project}

abbrev pub names_of : Dict ComposeService → List String
names_of services = map (λ s. s.0) services

module _ (around : Surroundings) where
  extend_services-names :
      (path : String) (env : Dict String) (services result : Dict ComposeService)
      → extend_services around path env services ≡ ok result
      → names_of result ≡ names_of services
  unfolding extend_services
  extend_services-names path env [] result e = ap names_of (sym (ok-injective [] result e))
  extend_services-names path env ((name, svc) ∷ services) result e =
      let (resolved, p, e') =
        bind-ok (extended around path env name svc.extends svc)
          (λ resolved.
            extend_services around path env services >>= λ rest. ok ((name, resolved) ∷ rest))
          result e in
      let (rest, q, e'') =
        bind-ok (extend_services around path env services) (λ rest. ok ((name, resolved) ∷ rest))
          result e' in
      sym (ap names_of (ok-injective _ result e''))
      ∙ ap (◌∷◌ name) (extend_services-names path env services rest q)

  converted-names :
      (path : String) (services : Dict ComposeService)
      → map (λ s. s.name) (map to_service (map (env_service around path) services))
        ≡ names_of services
  unfolding to_service env_service compose_cockpit.Discovery.Compose.convert_service
  converted-names path [] = refl
  converted-names path (s ∷ services) = ap (◌∷◌ s.0) (converted-names path services)

  -- A project that Parse gives has a service for each name of the merged file, in the same order.
  pub parse_project-names :
      (disc : DiscoveredProject) (p : Project)
      → parse_project around disc ≡ ok p
      → (merged : ComposeFile) × (merge_files around disc.compose_files
            (env_vars around disc)
            empty_file
          ≡ ok merged)
        × (map (λ s. s.name) p.services ≡ names_of merged.services)
  unfolding parse_project project_services to_project
  parse_project-names disc p e =
      let env = env_vars around disc in
      let (merged, m, e') =
        bind-ok (merge_files around disc.compose_files env empty_file)
          (λ merged. project_services around disc.path env merged.services >>= λ services.
            ok (to_project around disc merged services))
          p e in
      let (services, s, e'') =
        bind-ok (project_services around disc.path env merged.services)
          (λ services. ok (to_project around disc merged services)) p e' in
      let (resolved, r, s') =
        bind-ok (extend_services around disc.path env merged.services)
          (λ resolved. ok (map to_service (map (env_service around disc.path) resolved))) services
          s in
      (
        merged,
        m,
        ap (λ q. map (λ s. s.name) q.services) (sym (ok-injective _ p e''))
            ∙ ap (map (λ s. s.name)) (sym (ok-injective _ services s'))
            ∙ converted-names disc.path resolved
            ∙ extend_services-names disc.path (env_vars around disc) merged.services resolved r,
      )

  merge_files-append :
      (before after : List String) (env : Dict String) (m m' : ComposeFile)
      → merge_files around before env m ≡ ok m'
      → merge_files around (before ++ after) env m ≡ merge_files around after env m'
  unfolding merge_files
  merge_files-append [] after env m m' e = ap (merge_files around after env) (ok-injective m m' e)
  merge_files-append (f ∷ before) after env m m' e =
      let (cf, p, e') =
        bind-ok (full_file around f env) (λ cf. merge_files around before env (merge_into m cf)) m'
          e in
      rw (merge_files, p) (merge_files-append before after env (merge_into m cf) m' e')

  -- The first compose file that does not parse ends Parse with its error and its path, whatever comes
  -- after it.
  parse_project-unparsed :
      (disc : DiscoveredProject) (before after : List String) (path : String) (m : ComposeFile)
      (e : ParseError)
      → disc.compose_files ≡ before ++ path ∷ after
      → merge_files around before (env_vars around disc) empty_file ≡ ok m
      → parse_file around path (env_vars around disc) ≡ err e
      → parse_project around disc ≡ err (parse path e)
  unfolding parse_project merge_files full_file
  parse_project-unparsed disc before after path m e files fine bad =
      rw
        (
          parse_project,
          files,
          merge_files-append before (path ∷ after) (env_vars around disc) empty_file m fine,
          merge_files,
          full_file,
          bad,
        )
        refl
