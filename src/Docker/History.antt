-- ===== src/Docker/History.antt =====
-- The client's calls as steps on the history, and what a history says was created and removed.
use Prim.Native.String.{String}
use mathlib.Core.Path.{◌≡◌}
use native.Mathlib.Omega.{arith}
use mathlib.Core.Bool.{Bool, true, false}
use mathlib.Core.Option.{Option, none, some}
use mathlib.Core.List.{List, [], ◌∷◌}
use text.Mathlib.Text.{find?}
use compose_cockpit.Base.Dict.{Dict}
use compose_cockpit.Base.Results.{Result, ok}
use compose_cockpit.Docker.Client.{
  ContainerCreateConfig, ContainerInfo, NetworkInfo, VolumeInfo, ImageBuildOpts, Event, History,
  Daemon,
}

abbrev pub M : Type 0 → Type 0
M A = History → A × History

abbrev pub return : {A : Type 0} → A → M A
return a h = (a, h)

infixl 5 ◌>>=◌ ◌>>◌
abbrev pub ◌>>=◌ : {A B : Type 0} → M A → (A → M B) → M B
◌>>=◌ m f h = let r = m h in f r.0 r.1

abbrev pub ◌>>◌ : {B : Type 0} → M (Unit {0}) → M B → M B
◌>>◌ m k h = k (m h).1

-- `strings.Contains(s, t)`
unfoldable pub contains_text : String → String → Bool
contains_text s t = elim (find? s t) [ none ↦ false | some _ ↦ true ]

module _ (d : Daemon) where
  abbrev pub container_create : ContainerCreateConfig → M (Result String String)
  container_create c h = let r = d.on_container_create h c in (r, Event.container_create c r ∷ h)

  abbrev pub container_start : String → M (Option String)
  container_start id h = let r = d.on_container_start h id in (r, Event.container_start id r ∷ h)

  abbrev pub container_stop : String → M (Option String)
  container_stop id h = (d.on_container_stop h id, Event.container_stop id ∷ h)

  abbrev pub container_remove : String → M (Option String)
  container_remove id h = (d.on_container_remove h id, Event.container_remove id ∷ h)

  abbrev pub container_list : Dict (List String) → M (Result String (List ContainerInfo))
  container_list f h = (d.on_container_list h f, Event.container_list f ∷ h)

  abbrev pub network_create : String → String → Dict String → M (Result String String)
  network_create n driver labels h =
      let r = d.on_network_create h n driver labels in
      (r, Event.network_create n driver labels r ∷ h)

  abbrev pub network_remove : String → M (Option String)
  network_remove id h = (d.on_network_remove h id, Event.network_remove id ∷ h)

  abbrev pub network_list : M (Result String (List NetworkInfo))
  network_list h = (d.on_network_list h, Event.network_list ∷ h)

  abbrev pub volume_create : String → String → Dict String → M (Option String)
  volume_create n driver labels h =
      let r = d.on_volume_create h n driver labels in (r, Event.volume_create n driver labels r ∷ h)

  abbrev pub volume_remove : String → M (Option String)
  volume_remove n h = (d.on_volume_remove h n, Event.volume_remove n ∷ h)

  abbrev pub volume_list : M (Result String (List VolumeInfo))
  volume_list h = (d.on_volume_list h, Event.volume_list ∷ h)

  abbrev pub image_pull : String → M (Option String)
  image_pull n h = (d.on_image_pull h n, Event.image_pull n ∷ h)

  abbrev pub image_build : ImageBuildOpts → M (Option String)
  image_build o h = (d.on_image_build h o, Event.image_build o ∷ h)

  abbrev pub image_exists : String → M (Result String Bool)
  image_exists n h = (d.on_image_exists h n, Event.image_exists n ∷ h)

  -- `ctx.Err() != nil`
  abbrev pub ctx_err : M Bool
  ctx_err h = (d.on_ctx_err h, Event.ctx_err ∷ h)

  abbrev pub listen : String → String → M Bool
  listen ip port h = (d.on_listen h ip port, Event.listen ip port ∷ h)

-- What a history created, started, stopped and removed, each list with the last call first.
pub record Ledger : Type 0 where
  pub networks_created : List String
  pub networks_removed : List String
  pub volumes_ensured : List String
  pub volumes_found : List String
  pub volumes_removed : List String
  pub containers_created : List String
  pub start_calls : List String
  pub containers_started : List String
  pub containers_stopped : List String
  pub containers_removed : List String

abbrev pub post_volume : String → Option String → Ledger → Ledger
post_volume n none l = record l { volumes_ensured = n ∷ l.volumes_ensured }
post_volume n (some e) l = elim (contains_text e "already exists") [
  | true ↦ record l { volumes_ensured = n ∷ l.volumes_ensured; volumes_found = n ∷ l.volumes_found }
  | false ↦ l
]

pub post_volume_found :
    (n e : String) (l : Ledger)
    → contains_text e "already exists" ≡ true
    → post_volume n (some e) l
      ≡ record l { volumes_ensured = n ∷ l.volumes_ensured; volumes_found = n ∷ l.volumes_found }
post_volume_found n e l h = ground arith

pub post_volume_refused :
    (n e : String) (l : Ledger)
    → contains_text e "already exists" ≡ false
    → post_volume n (some e) l ≡ l
post_volume_refused n e l h = ground arith

abbrev pub post_start : String → Option String → List String → List String
post_start id none started = id ∷ started
post_start id (some e) started = started

-- A creation or a start counts if it succeeded, a stop or a removal if it was asked for. A volume is
-- ensured if it was created or is said to exist already, and found in the second case.
abbrev pub post : Event → Ledger → Ledger
post (Event.container_create c (ok id)) l = record l {
  containers_created = id ∷ l.containers_created;
}
post (Event.container_start id r) l = record l {
  start_calls = id ∷ l.start_calls;
  containers_started = post_start id r l.containers_started;
}
post (Event.container_stop id) l = record l { containers_stopped = id ∷ l.containers_stopped }
post (Event.container_remove id) l = record l { containers_removed = id ∷ l.containers_removed }
post (Event.network_create n driver labels (ok id)) l = record l {
  networks_created = id ∷ l.networks_created;
}
post (Event.network_remove id) l = record l { networks_removed = id ∷ l.networks_removed }
post (Event.volume_create n driver labels r) l = post_volume n r l
post (Event.volume_remove n) l = record l { volumes_removed = n ∷ l.volumes_removed }
post e l = l

abbrev pub ledger : History → Ledger
ledger [] = record {
  networks_created = [];
  networks_removed = [];
  volumes_ensured = [];
  volumes_found = [];
  volumes_removed = [];
  containers_created = [];
  start_calls = [];
  containers_started = [];
  containers_stopped = [];
  containers_removed = [];
}
ledger (e ∷ h) = post e (ledger h)
