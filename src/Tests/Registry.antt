-- ===== src/Tests/Registry.antt =====
-- The registry of projects after a scan of the small disk.
use compose_cockpit.Base.{String, false, some, [], ◌∷◌, map, ◌≡◌, ◌≢◌, refl, ◌↔◌, In, inl, eq_iff}
use compose_cockpit.Base.Results.{ok}
use compose_cockpit.Domain.Project.{Project, unknown}
use compose_cockpit.Auth.Access.{next, read_project}
use compose_cockpit.Discovery.Scanner.{
  DiscoveredProject, deduplicate_and_order, compose_files_of, env_files_of, is_override,
}
use compose_cockpit.Discovery.Scanner.Walk.{scan, walk, skipped_name}
use compose_cockpit.Discovery.Parser.{Surroundings, parse_file, resolve_includes, unless_null}
use compose_cockpit.Discovery.Parser.Parse.{
  parse_project, empty_file, merge_files, full_file, project_services,
}
use compose_cockpit.Docker.History.{contains_text}
use compose_cockpit.Discovery.Compose.{merge_into}
use compose_cockpit.Api.Projects.{Projects, get_project, list_projects, trigger_scan, parse_all}
use compose_cockpit.Api.Projects.Listing.{list_projects-read_project}
use compose_cockpit.Api.Projects.Registry.{Source, trigger_scan-registers, trigger_scan-get_project}
use compose_cockpit.Tests.Disk.{disk}
use compose_cockpit.Tests.Requests.{grants, bob}

-- Every file is an empty compose file.
abbrev empty_files : Surroundings
empty_files = record {
  read = λ path. some "";
  unmarshal = λ content. some empty_file;
  join = λ dir path. path;
  dir = λ path. ".";
  base = λ path. "p";
  environ = [];
  project_id = λ path. "p1";
}

abbrev at_p : DiscoveredProject
at_p = record { path = "/p"; compose_files = "/p/compose.yml" ∷ []; env_files = [] }

abbrev p1 : Project
p1 = record {
  id = "p1";
  name = "p";
  path = "/p";
  compose_files = "/p/compose.yml" ∷ [];
  env_files = [];
  services = [];
  networks = [];
  volumes = [];
  profiles = [];
  status = unknown;
}

scanned : scan disk (λ k. false) 0 "/p" ≡ ok (at_p ∷ [])
unfolding scan walk compose_files_of env_files_of deduplicate_and_order is_override skipped_name
    contains_text
scanned = refl

parsed : parse_project empty_files at_p ≡ ok p1
unfolding parse_project merge_files full_file parse_file resolve_includes unless_null
    project_services merge_into
parsed = refl

registered : get_project "p1" (trigger_scan empty_files disk (λ k. false) 0 "/p" []).1 ≡ ok p1
unfolding get_project trigger_scan parse_all
registered = rw (scanned, trigger_scan) (rw (parsed, parse_all) refl)

trigger_scan-registers_example :
    (q : Project) × (get_project "p1" (trigger_scan empty_files disk (λ k. false) 0 "/p" []).1
      ≡ ok q)
trigger_scan-registers_example =
    trigger_scan-registers empty_files disk (λ k. false) 0 "/p" (at_p ∷ []) [] at_p p1 scanned
      (inl refl) parsed

trigger_scan-get_project_example : (p1.id ≡ "p1") × Source empty_files p1 (at_p ∷ [])
trigger_scan-get_project_example =
    trigger_scan-get_project empty_files disk (λ k. false) 0 "/p" (at_p ∷ []) [] "p1" p1 scanned
      registered

p1_named : ◌≢◌ {A = String} "p1" ""
p1_named e = let f = (eq_iff "p1" "").1 e in cc

abbrev registry : Projects
registry = ("p1", p1) ∷ []

list_projects-read_project_example :
    In p1 (list_projects grants bob registry)
    ↔ In p1 (map (λ e. e.1) registry) × (read_project grants (some bob) "p1" ≡ next)
list_projects-read_project_example = list_projects-read_project grants bob registry p1 p1_named
