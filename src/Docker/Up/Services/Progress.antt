-- ===== src/Docker/Up/Services/Progress.antt =====
-- Phase 4 keeps the record of what was created, or ends with all of it removed, or, when the context
-- is cancelled, with the containers removed.
use mathlib.Core.List.{reverse, reverse-cons, append-nil}
use compose_cockpit.Base.{
  String, Bool, true, false, Option, none, some, List, [], ◌∷◌, ◌++◌, ◌≡◌, ap, Bool-cases, same,
  inl, inr,
}
use compose_cockpit.Base.Results.{Result, ok, err}
use compose_cockpit.Domain.Operation.{OpStep}
use compose_cockpit.Domain.Project.{Project, Service, BuildConfig}
use compose_cockpit.Docker.Client.{Event, ContainerCreateConfig, History, Daemon}
use compose_cockpit.Docker.History.{Ledger, ledger}
use compose_cockpit.Docker.Up.Outcome.{
  Proceeds, Proceeds-and_then, Open, Holds, rollback_containers-ContainersUndone,
  rollback_all-Undone,
}
use compose_cockpit.Docker.Up.Steps.{done_step}
use compose_cockpit.Docker.Up.Services.{
  image_name, create_config, build_opts, built, pulled, pull_missing, prepare_image,
  container_answered, container_made, create_container, deploy, service_checked, up_service,
  up_services,
}

module _ (nets vols ctrs : List String) (id : String) where
  -- The ledger after a container was created.
  abbrev with_container : Ledger → Ledger
  with_container l = record l { containers_created = id ∷ l.containers_created }

  created_last :
      {l : Ledger} → Holds nets vols ctrs l → reverse (id ∷ l.containers_created) ≡ ctrs ++ id ∷ []
  created_last {l} o =
      rw (reverse-cons id l.containers_created, o.is_open.containers, o.containers_kept)
        (ap (λ xs. xs ++ id ∷ []) (append-nil ctrs))

  Holds-container :
      {l : Ledger}
      → Holds nets vols ctrs l
      → Holds nets vols (ctrs ++ id ∷ []) (record l {
        containers_created = id ∷ l.containers_created;
        start_calls = id ∷ l.start_calls;
        containers_started = id ∷ l.containers_started;
      })
  Holds-container o = record {
    is_open = record {
      networks = o.is_open.networks;
      volumes = o.is_open.volumes;
      containers = rw (created_last o, o.containers_kept, append-nil (ctrs ++ id ∷ []));
      networks_kept = o.is_open.networks_kept;
      volumes_kept = o.is_open.volumes_kept;
    };
    containers_kept = o.containers_kept;
    started = ap (◌∷◌ id) o.started;
  }

  -- A container that did not start and was removed.
  Open-removed :
      {l : Ledger}
      → Holds nets vols ctrs l
      → Open nets vols ctrs (record l {
        containers_created = id ∷ l.containers_created;
        start_calls = id ∷ l.start_calls;
        containers_removed = id ∷ l.containers_removed;
      })
  Open-removed o = record {
    networks = o.is_open.networks;
    volumes = o.is_open.volumes;
    containers = rw (created_last o, o.containers_kept);
    networks_kept = o.is_open.networks_kept;
    volumes_kept = o.is_open.volumes_kept;
  }

abbrev pub ServicesHold : List String → List String → List OpStep × List String → Ledger → Type 0
ServicesHold nets vols s l = Holds nets vols s.1 l

module _ (d : Daemon) (p : Project) (nets vols : List String) (s : Service) (steps : List OpStep)
    (ctrs : List String) where
  -- While the image is prepared nothing else is created.
  abbrev ImageHolds : List OpStep → Ledger → Type 0
  ImageHolds _ l = Holds nets vols ctrs l

  built-Proceeds :
      (r : Option String) (h : History)
      → Holds nets vols ctrs (ledger h)
      → Proceeds ImageHolds (built d p nets vols s steps ctrs r h)
  unfolding built
  built-Proceeds none h o = o
  built-Proceeds (some e) h o = rollback_all-Undone d nets vols ctrs h o.is_open

  pulled-Proceeds :
      (image : String) (r : Option String) (h : History)
      → Holds nets vols ctrs (ledger h)
      → Proceeds ImageHolds (pulled d p nets vols s image steps ctrs r h)
  unfolding pulled
  pulled-Proceeds image none h o = o
  pulled-Proceeds image (some e) h o = rollback_all-Undone d nets vols ctrs h o.is_open

  pull_missing-Proceeds :
      (image : String) (r : Result String Bool) (h : History)
      → Holds nets vols ctrs (ledger h)
      → Proceeds ImageHolds (pull_missing d p nets vols s image steps ctrs r h)
  unfolding pull_missing
  pull_missing-Proceeds image (err e) h o = rollback_all-Undone d nets vols ctrs h o.is_open
  pull_missing-Proceeds image (ok true) h o = o
  pull_missing-Proceeds image (ok false) h o =
      pulled-Proceeds image (d.on_image_pull h image) (Event.image_pull image ∷ h) o

  prepare_image-Proceeds :
      (image : String) (b : Option BuildConfig) (h : History)
      → Holds nets vols ctrs (ledger h)
      → Proceeds ImageHolds (prepare_image d p nets vols s image steps ctrs b h)
  unfolding prepare_image
  prepare_image-Proceeds image (some b) h o =
      let opts = build_opts d p nets vols b image in
      built-Proceeds (d.on_image_build h opts) (Event.image_build opts ∷ h) o
  prepare_image-Proceeds image none h o =
      pull_missing-Proceeds image (d.on_image_exists h image) (Event.image_exists image ∷ h) o

  container_answered-Proceeds :
      (c : ContainerCreateConfig) (id : String) (r : Option String) (h : History)
      → Holds nets vols ctrs (ledger h)
      → Proceeds (ServicesHold nets vols) (
          container_answered d p nets vols s id steps ctrs r
            (Event.container_start id r ∷ Event.container_create c (ok id) ∷ h))
  unfolding container_answered
  container_answered-Proceeds c id none h o = Holds-container nets vols ctrs id o
  container_answered-Proceeds c id (some e) h o =
      rollback_all-Undone d nets vols ctrs _ (Open-removed nets vols ctrs id o)

module _ (d : Daemon) (p : Project) (nets vols : List String) (s : Service)
    (ctrs : List String) where
  container_made-Proceeds :
      (c : ContainerCreateConfig) (r : Result String String) (steps : List OpStep) (h : History)
      → Holds nets vols ctrs (ledger h)
      → Proceeds
          (ServicesHold nets vols)
          (container_made d p nets vols s steps ctrs r (Event.container_create c r ∷ h))
  unfolding container_made
  container_made-Proceeds c (err e) steps h o = rollback_all-Undone d nets vols ctrs _ o.is_open
  container_made-Proceeds c (ok id) steps h o =
      container_answered-Proceeds d p nets vols s (done_step s.name "create" steps) ctrs c id
        (d.on_container_start (Event.container_create c (ok id) ∷ h) id) h o

  create_container-Proceeds :
      (image : String) (steps : List OpStep) (h : History)
      → Holds nets vols ctrs (ledger h)
      → Proceeds (ServicesHold nets vols) (create_container d p nets vols s image ctrs steps h)
  unfolding create_container
  create_container-Proceeds image steps h o =
      let c = create_config p s image in
      container_made-Proceeds c (d.on_container_create h c) steps h o

  deploy-Proceeds :
      (image : String) (steps : List OpStep) (h : History)
      → Holds nets vols ctrs (ledger h)
      → Proceeds (ServicesHold nets vols) (deploy d p nets vols s image steps ctrs h)
  unfolding deploy
  deploy-Proceeds image steps h o =
      Proceeds-and_then (ImageHolds d p nets vols s steps ctrs) (ServicesHold nets vols) _ _ _
        (prepare_image-Proceeds d p nets vols s steps ctrs image s.build h o)
        (λ steps' h' o'. create_container-Proceeds image steps' h' o')

  service_checked-Proceeds :
      (over : Bool) (steps : List OpStep) (h : History)
      → Holds nets vols ctrs (ledger h)
      → Proceeds (ServicesHold nets vols) (service_checked d p nets vols s steps ctrs over h)
  unfolding service_checked
  service_checked-Proceeds true steps h o =
      rollback_containers-ContainersUndone d nets vols ctrs h o
  service_checked-Proceeds false steps h o = elim (Bool-cases (same (image_name p s) "")) [
    | inl e ↦ rw (e, service_checked) o
    | inr e ↦ rw (e, service_checked) (deploy-Proceeds (image_name p s) steps h o)
  ]

  up_service-Proceeds :
      (steps : List OpStep) (h : History)
      → Holds nets vols ctrs (ledger h)
      → Proceeds (ServicesHold nets vols) (up_service d p nets vols s steps ctrs h)
  unfolding up_service
  up_service-Proceeds steps h o =
      service_checked-Proceeds (d.on_ctx_err h) steps (Event.ctx_err ∷ h) o

module _ (d : Daemon) (p : Project) (nets vols : List String) where
  pub up_services-Proceeds :
      (ss : List Service) (steps : List OpStep) (ctrs : List String) (h : History)
      → Holds nets vols ctrs (ledger h)
      → Proceeds (ServicesHold nets vols) (up_services d p nets vols ss steps ctrs h)
  unfolding up_services
  up_services-Proceeds [] steps ctrs h o = o
  up_services-Proceeds (s ∷ ss) steps ctrs h o =
      Proceeds-and_then (ServicesHold nets vols) (ServicesHold nets vols) _ _ _
        (up_service-Proceeds d p nets vols s ctrs steps h o)
        (λ x h' o'. up_services-Proceeds ss x.0 x.1 h' o')
