-- ===== src/Discovery/Compose/Merge.antt =====
-- Merging of services in internal/discovery/parser.go: the order of grouping does not matter.
use compose_cockpit.Base.{String, Option, none, some, ◌≡◌, refl, ap, arith}
use compose_cockpit.Discovery.Value.{
  Value, null, bool, int, number, text, list, mapping, strings, Values, no_values, item,
}
use compose_cockpit.Discovery.Compose.{
  ComposeService, over_value, over_slice, over_text, over_ports, append, merge_service,
}

over_value_assoc : (a b c : Value) → over_value (over_value a b) c ≡ over_value a (over_value b c)
unfolding over_value
over_value_assoc a b null = refl
over_value_assoc a b (bool x) = refl
over_value_assoc a b (int x) = refl
over_value_assoc a b (number x) = refl
over_value_assoc a b (text x) = refl
over_value_assoc a b (list x) = refl
over_value_assoc a b (mapping x) = refl
over_value_assoc a b (strings x) = refl

over_slice_assoc :
    {A : Type 0} (a b c : Option A) → over_slice (over_slice a b) c ≡ over_slice a (over_slice b c)
over_slice_assoc a b none = refl
over_slice_assoc a b (some c) = refl

over_text_assoc : (a b c : String) → over_text (over_text a b) c ≡ over_text a (over_text b c)
over_text_assoc a b c = ground arith

append_assoc : (us vs ws : Values) → append (append us vs) ws ≡ append us (append vs ws)
unfolding append
append_assoc no_values vs ws = refl
append_assoc (item u us) vs ws = ap (item u) (append_assoc us vs ws)

append-no_values : (vs : Values) → append vs no_values ≡ vs
unfolding append
append-no_values no_values = refl
append-no_values (item v vs) = ap (item v) (append-no_values vs)

over_ports_assoc :
    (a b c : Option Values) → over_ports (over_ports a b) c ≡ over_ports a (over_ports b c)
unfolding over_ports append
over_ports_assoc a b none = refl
over_ports_assoc none none (some no_values) = refl
over_ports_assoc none none (some (item v vs)) = refl
over_ports_assoc (some a) none (some no_values) = ap some (append-no_values a)
over_ports_assoc (some a) none (some (item v vs)) = refl
over_ports_assoc none (some no_values) (some no_values) = refl
over_ports_assoc none (some no_values) (some (item v vs)) = refl
over_ports_assoc none (some (item u us)) (some c) = refl
over_ports_assoc (some a) (some b) (some c) = ap some (append_assoc a b c)

-- Two services with the same fields, the maps of strings left out.
pub record SameFields (s t : ComposeService) : Type 0 where
  image : s.image ≡ t.image
  build : s.build ≡ t.build
  ports : s.ports ≡ t.ports
  depends_on : s.depends_on ≡ t.depends_on
  profiles : s.profiles ≡ t.profiles
  volumes : s.volumes ≡ t.volumes
  networks : s.networks ≡ t.networks
  restart : s.restart ≡ t.restart
  command : s.command ≡ t.command
  entrypoint : s.entrypoint ≡ t.entrypoint
  extends : s.extends ≡ t.extends
  env_file : s.env_file ≡ t.env_file

-- Three services merged from the left or from the right agree in every field but the environment and
-- the labels: the ports of all three stand one after another, and any other field is the last one that
-- is set.
merge_service_assoc :
    (a b c : ComposeService)
    → SameFields (merge_service (merge_service a b) c) (merge_service a (merge_service b c))
unfolding merge_service
merge_service_assoc a b c = record {
  image = over_text_assoc a.image b.image c.image;
  build = over_value_assoc a.build b.build c.build;
  ports = over_ports_assoc a.ports b.ports c.ports;
  depends_on = over_value_assoc a.depends_on b.depends_on c.depends_on;
  profiles = over_slice_assoc a.profiles b.profiles c.profiles;
  volumes = over_slice_assoc a.volumes b.volumes c.volumes;
  networks = over_value_assoc a.networks b.networks c.networks;
  restart = over_text_assoc a.restart b.restart c.restart;
  command = over_value_assoc a.command b.command c.command;
  entrypoint = over_value_assoc a.entrypoint b.entrypoint c.entrypoint;
  extends = refl;
  env_file = over_value_assoc a.env_file b.env_file c.env_file;
}
