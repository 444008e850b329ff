-- ===== src/Discovery/Parser/Extends.antt =====
-- resolveExtends of internal/discovery/parser.go against the chains of services that it follows.
use compose_cockpit.Base.{
  ℕ, zero, suc, ◌≤◌, String, Option, none, some, ◌≡◌, refl, subst, ◌↔◌, arith,
}
use compose_cockpit.Base.Dict.{Dict}
use compose_cockpit.Base.Results.{ok, err, ok-injective, bind-ok}
use compose_cockpit.Discovery.Compose.{ExtendsConfig, ComposeService, merge_service}
use compose_cockpit.Discovery.Parser.{
  Surroundings, extends_limit, extended_service, without_extends, over_parent, with_parent,
  resolve_extends,
}

module _ (around : Surroundings) (env : Dict String) where
  -- What a reference to a service means: the service it names, over the meaning of its own reference
  -- if it has one, which is read from the directory of its file. The number counts the services.
  pub data Extends : ℕ → String → ExtendsConfig → ComposeService → Type 0 where
    root :
        {dir : String} {ext : ExtendsConfig} {svc : ComposeService}
        → extended_service around dir ext env ≡ ok svc
        → svc.extends ≡ none
        → Extends 1 dir ext svc
    child :
        {n : ℕ} {dir : String} {ext above : ExtendsConfig} {svc parent : ComposeService}
        → extended_service around dir ext env ≡ ok svc
        → svc.extends ≡ some above
        → Extends n (around.dir (around.join dir ext.file)) above parent
        → Extends (suc n) dir ext (without_extends (merge_service parent svc))

  -- The level that a resolution takes for a service and what it extends.
  abbrev pub Chain : ℕ → String → ExtendsConfig → ComposeService → Type 0
  Chain n dir ext svc = (d : ℕ) × (d ≤ n) × Extends d dir ext svc

  with_parent-ok :
      (n : ℕ) (dir : String) (ext : ExtendsConfig) (svc result : ComposeService)
      (o : Option ExtendsConfig)
      → ((above : ExtendsConfig) (parent : ComposeService)
          → resolve_extends around n (around.dir (around.join dir ext.file)) above env ≡ ok parent
          → Chain n (around.dir (around.join dir ext.file)) above parent)
      → extended_service around dir ext env ≡ ok svc
      → svc.extends ≡ o
      → with_parent around
          (λ above. resolve_extends around n (around.dir (around.join dir ext.file)) above env)
          o
          svc
        ≡ ok result
      → Chain (suc n) dir ext result
  unfolding with_parent
  with_parent-ok n dir ext svc result none ih found e r =
      subst (Chain (suc n) dir ext) (ok-injective svc result r) (1, omega arith, root found e)
  with_parent-ok n dir ext svc result (some above) ih found e r =
      let (parent, resolved, merged) = bind-ok _ (over_parent svc) result r in
      let (d, l, more) = ih above parent resolved in
      subst (Chain (suc n) dir ext) (ok-injective _ result merged)
        (suc d, omega (arith, l), child found e more)

  resolve_extends-ok :
      (n : ℕ) (dir : String) (ext : ExtendsConfig) (result : ComposeService)
      → resolve_extends around n dir ext env ≡ ok result
      → Chain n dir ext result
  unfolding resolve_extends
  resolve_extends-ok zero dir ext result r = absurd cc
  resolve_extends-ok (suc n) dir ext result r =
      let (svc, found, merged) = bind-ok _ _ result r in
      with_parent-ok n dir ext svc result svc.extends
        (λ above parent. resolve_extends-ok n (around.dir (around.join dir ext.file)) above parent)
        found refl merged

  Extends-resolve_extends :
      (d n : ℕ) (dir : String) (ext : ExtendsConfig) (result : ComposeService)
      → d ≤ n
      → Extends d dir ext result
      → resolve_extends around n dir ext env ≡ ok result
  unfolding resolve_extends with_parent
  Extends-resolve_extends d zero dir ext result l (root found e) = absurd (omega (arith, l))
  Extends-resolve_extends d zero dir ext result l (child found e more) = absurd (omega (arith, l))
  Extends-resolve_extends d (suc n) dir ext result l (root found e) =
      rw (resolve_extends, found, e) refl
  Extends-resolve_extends _ (suc n) dir ext _ l
        (child {n = k} {above = above} {parent = parent} found e more) =
      rw
        (
          resolve_extends,
          found,
          e,
          Extends-resolve_extends k n (around.dir (around.join dir ext.file)) above parent
              (omega (arith, l)) more,
        )
        refl

  -- A reference is resolved to a service exactly if that service is what the reference means by a chain
  -- of no more services than there are levels left.
  pub resolve_extends-Chain :
      (n : ℕ) (dir : String) (ext : ExtendsConfig) (result : ComposeService)
      → (resolve_extends around n dir ext env ≡ ok result) ↔ Chain n dir ext result
  resolve_extends-Chain n dir ext result = (
    resolve_extends-ok n dir ext result,
    (λ c. let (d, l, e) = c in Extends-resolve_extends d n dir ext result l e),
  )

  -- If a set of references never ends, as one that a service has to itself, each of them gives the
  -- error of the limit.
  pub resolve_extends-limit :
      (Endless : String → ExtendsConfig → Type 0)
      → ((dir : String) (ext : ExtendsConfig)
          → Endless dir ext
          → (svc : ComposeService) × (above : ExtendsConfig) × (extended_service around dir ext env
              ≡ ok svc)
            × (svc.extends ≡ some above)
            × Endless (around.dir (around.join dir ext.file)) above)
      → (n : ℕ) (dir : String) (ext : ExtendsConfig) → Endless dir ext
      → resolve_extends around n dir ext env ≡ err extends_limit
  unfolding resolve_extends with_parent
  resolve_extends-limit Endless step zero dir ext endless = refl
  resolve_extends-limit Endless step (suc n) dir ext endless =
      let (svc, above, found, e, more) = step dir ext endless in
      rw (resolve_extends, found, e, resolve_extends-limit Endless step n _ above more) refl
