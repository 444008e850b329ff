-- ===== src/Discovery/Compose/Services.antt =====
-- mergeInto of internal/discovery/parser.go: the services of the merged file.
use compose_cockpit.Base.{
  String, Bool, true, false, Option, none, some, [], ◌∷◌, ◌≡◌, refl, same, Bool-cases, inl, inr,
  if◌then◌else◌, eq_of_same,
}
use compose_cockpit.Base.Dict.{Dict, lookup, insert, UniqueKeys, lookup-insert}
use compose_cockpit.Discovery.Compose.{
  ComposeService, ComposeFile, merged_into, merge_services, merge_into,
}

-- A service of both files, or of one.
abbrev pub in_both : Option ComposeService → Option ComposeService → Option ComposeService
in_both base none = base
in_both base (some svc) = some (merged_into base svc)

lookup-merge_services :
    (name : String) (over base : Dict ComposeService)
    → UniqueKeys over
    → lookup name (merge_services over base) ≡ in_both (lookup name base) (lookup name over)
unfolding merge_services
lookup-merge_services name [] base u = refl
lookup-merge_services name ((k, svc) ∷ over) base (fresh, u) = elim (Bool-cases (same k name)) [
  | inl e ↦
      let absent : lookup name over ≡ none = rw (← eq_of_same k name e) fresh in
      rw
        (
          lookup-merge_services name over (insert k (merged_into (lookup k base) svc) base) u,
          absent,
          lookup-insert k name (merged_into (lookup k base) svc) base,
          e,
          eq_of_same k name e,
        )
        refl
  | inr e ↦
      rw
        (
          lookup-merge_services name over (insert k (merged_into (lookup k base) svc) base) u,
          lookup-insert k name (merged_into (lookup k base) svc) base,
          e,
        )
        refl
]

-- A service of the merged file is the one that the two files agree on: merged if both have it, and
-- otherwise that of the file which has it.
pub lookup-merge_into :
    (name : String) (over base : ComposeFile)
    → UniqueKeys over.services
    → lookup name (merge_into base over).services
      ≡ in_both (lookup name base.services) (lookup name over.services)
unfolding merge_into
lookup-merge_into name over base u = lookup-merge_services name over.services base.services u

abbrev pub defined : {A : Type 0} → Option A → Bool
defined none = false
defined (some a) = true

-- No service is lost.
merge_services-keeps :
    (name : String) (over base : Dict ComposeService)
    → defined (lookup name base) ≡ true
    → defined (lookup name (merge_services over base)) ≡ true
unfolding merge_services
merge_services-keeps name [] base d = d
merge_services-keeps name ((k, svc) ∷ over) base d =
    merge_services-keeps name over (insert k (merged_into (lookup k base) svc) base)
      (rw (lookup-insert k name (merged_into (lookup k base) svc) base) (still (same k name) d))
  where
    still :
        (b : Bool)
        → defined (lookup name base) ≡ true
        → defined (if b then some (merged_into (lookup k base) svc) else lookup name base) ≡ true
    still true h = refl
    still false h = h

pub merge_into-keeps :
    (name : String) (base over : ComposeFile)
    → defined (lookup name base.services) ≡ true
    → defined (lookup name (merge_into base over).services) ≡ true
unfolding merge_into
merge_into-keeps name base over d = merge_services-keeps name over.services base.services d
