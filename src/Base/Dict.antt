-- ===== src/Base/Dict.antt =====
-- Go maps with string keys, as association lists in the order in which a `range` visits them.
use Prim.Native.String.{String}
use mathlib.Core.Path.{◌≡◌, refl}
use mathlib.Core.Option.{Option, none, some}
use mathlib.Core.List.{List, [], ◌∷◌}
use native.Mathlib.Omega.{arith}
use text.Mathlib.TextEquality.{eq_iff}
use mathlib.Core.Logic.{inl, inr}
use compose_cockpit.Base.Tests.{same, if◌then◌else◌, Bool-cases, eq_of_same, same-sym}

abbrev pub Dict {ℓ} : Type ℓ → Type ℓ
Dict V = List (String × V)

module _ {ℓ} {V : Type ℓ} where
  -- `v, ok := m[k]`
  abbrev pub lookup : String → Dict V → Option V
  lookup k [] = none
  lookup k ((j, v) ∷ m) = let rest = lookup k m in if same j k then some v else rest

  -- `m[k] = v`
  abbrev pub insert : String → V → Dict V → Dict V
  insert k v [] = (k, v) ∷ []
  insert k v ((j, w) ∷ m) =
      let rest = insert k v m in if same j k then (k, v) ∷ m else (j, w) ∷ rest

  -- `delete(m, k)`
  abbrev pub delete : String → Dict V → Dict V
  delete k [] = []
  delete k ((j, w) ∷ m) = let rest = delete k m in if same j k then rest else (j, w) ∷ rest

  pub lookup-insert :
      (k j : String) (v : V) (m : Dict V)
      → lookup j (insert k v m) ≡ (if same k j then some v else lookup j m)
  lookup-insert k j v [] = refl
  lookup-insert k j v ((i, w) ∷ m) =
      ground (arith, eq_iff k j, eq_iff i k, eq_iff i j, lookup-insert k j v m)

  pub lookup-delete :
      (k j : String) (m : Dict V) → lookup j (delete k m) ≡ (if same k j then none else lookup j m)
  lookup-delete k j [] = ground arith
  lookup-delete k j ((i, w) ∷ m) =
      ground (arith, eq_iff k j, eq_iff i k, eq_iff i j, lookup-delete k j m)

  -- An entry that is added and deleted again leaves the others alone.
  pub lookup-delete-insert :
      (k j : String) (v : V) (m : Dict V)
      → lookup j (delete k (insert k v m)) ≡ (if same k j then none else lookup j m)
  lookup-delete-insert k j v m =
      ground (arith, lookup-delete k j (insert k v m), lookup-insert k j v m)

-- `for k, v := range over { base[k] = v }`
abbrev pub insert_all {ℓ} : {V : Type ℓ} → Dict V → Dict V → Dict V
insert_all [] base = base
insert_all ((k, v) ∷ over) base = insert_all over (insert k v base)

module _ {ℓ} {V : Type ℓ} where
  abbrev pub or_else : Option V → Option V → Option V
  or_else none w = w
  or_else (some v) w = some v

  -- Each key once, as in a Go map.
  abbrev pub UniqueKeys : Dict V → Type ℓ
  UniqueKeys [] = Unit
  UniqueKeys ((k, v) ∷ m) = (lookup k m ≡ none) × UniqueKeys m

  pub lookup-insert_all :
      (j : String) (over base : Dict V)
      → UniqueKeys over
      → lookup j (insert_all over base) ≡ or_else (lookup j over) (lookup j base)
  lookup-insert_all j [] base u = refl
  lookup-insert_all j ((k, v) ∷ over) base (fresh, u) = elim (Bool-cases (same k j)) [
    | inl e ↦
        let absent : lookup j over ≡ none = rw (← eq_of_same k j e) fresh in
        rw (lookup-insert_all j over (insert k v base) u, absent, lookup-insert k j v base, e) refl
    | inr e ↦ rw (lookup-insert_all j over (insert k v base) u, lookup-insert k j v base, e) refl
  ]

  pub insert-UniqueKeys :
      (k : String) (v : V) (m : Dict V) → UniqueKeys m → UniqueKeys (insert k v m)
  insert-UniqueKeys k v [] u = (refl, tt)
  insert-UniqueKeys k v ((j, w) ∷ m) (fresh, u) = elim (Bool-cases (same j k)) [
    | inl e ↦ rw (e, insert) (rw (← eq_of_same j k e) fresh, u)
    | inr e ↦
        rw (e, insert) (rw (lookup-insert k j v m, same-sym k j e) fresh, insert-UniqueKeys k v m u)
  ]
