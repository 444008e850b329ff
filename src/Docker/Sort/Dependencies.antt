-- ===== src/Docker/Sort/Dependencies.antt =====
-- topologicalSort of internal/docker/operations.go: dependencies come first, and its fuel is enough.
use mathlib.Core.List.{append_assoc, append-nil}
use compose_cockpit.Base.{
  ℕ, zero, suc, String, Option, none, some, List, [], ◌∷◌, ◌++◌, ◌≡◌, ◌≤◌, ◌<◌, ◌⊎◌, refl, sym, ap,
  ◌∙◌, contains, contains-In, In, In-append_left, In-append_right, Bool-cases, inl, inr, arith,
  length, subst,
}
use compose_cockpit.Domain.Project.{Service}
use compose_cockpit.Docker.Sort.{
  service_of, dependencies, appended, Walk, visit_all, visit, topological_sort,
}

module _ (services : List Service) where
  -- The services that `s` depends on stand in the list.
  abbrev pub Supplied : List Service → Service → Type 0
  Supplied before s =
      (d : String) (t : Service)
      → In d (dependencies (some s))
      → service_of d services ≡ some t
      → In t before

  -- Each service of the second list has what it depends on in the first one or earlier in the second.
  abbrev pub Ordered : List Service → List Service → Type 0
  Ordered before [] = Unit
  Ordered before (s ∷ ss) = Supplied before s × Ordered (before ++ s ∷ []) ss

  Ordered-append :
      (before xs : List Service) (s : Service)
      → Ordered before xs
      → Supplied (before ++ xs) s
      → Ordered before (xs ++ s ∷ [])
  Ordered-append before [] s o h = (subst (λ l. Supplied l s) (append-nil before) h, tt)
  Ordered-append before (x ∷ xs) s (hx, o) h = (
    hx,
    Ordered-append (before ++ x ∷ []) xs s o
        (subst (λ l. Supplied l s) (sym (append_assoc before (x ∷ []) xs)) h),
  )

  -- The service of the name, if there is one, is in the order.
  abbrev Placed : Walk → String → Type 0
  Placed w m = (t : Service) → service_of m services ≡ some t → In t w.order

  -- What a part of the walk keeps and adds.
  record Grows (w w' : Walk) : Type 0 where
    ordered : Ordered [] w'.order
    kept : (t : Service) → In t w.order → In t w'.order
    seen : (m : String) → In m w'.visited → Placed w' m ⊎ In m w.visited

  -- The visited names that are not placed yet are on the stack, with ranks from `k` on.
  abbrev Stacked : (String → ℕ) → ℕ → Walk → Type 0
  Stacked rank k w = (m : String) → In m w.visited → Placed w m ⊎ (k ≤ rank m)

  Grows-Stacked :
      (rank : String → ℕ) (k : ℕ) (w w' : Walk) → Grows w w' → Stacked rank k w → Stacked rank k w'
  Grows-Stacked rank k w w' g h m i = elim (g.seen m i) [
    | inl p ↦ inl p
    | inr j ↦ elim (h m j) [ inl p ↦ inl (λ t e. g.kept t (p t e)) | inr l ↦ inr l ]
  ]

  Grows-trans : (u v w : Walk) → Grows u v → Grows v w → Grows u w
  Grows-trans u v w a b = record {
    ordered = b.ordered;
    kept = λ t i. b.kept t (a.kept t i);
    seen = λ m i. elim (b.seen m i) [
      | inl p ↦ inl p
      | inr j ↦ elim (a.seen m j) [ inl p ↦ inl (λ t e. b.kept t (p t e)) | inr l ↦ inr l ]
    ];
  }

  Grows-refl : (w : Walk) → Ordered [] w.order → Grows w w
  Grows-refl w o = record { ordered = o; kept = λ t i. i; seen = λ m i. inr i }

  module _ (rank : String → ℕ)
      (lower : (n d : String) → In d (dependencies (service_of n services)) → rank d < rank n) where
    -- What a visit of a name of a rank below `k` does when the fuel is above its rank.
    abbrev Visits : (String → Walk → Walk) → ℕ → Type 0
    Visits f fuel =
        (k : ℕ) (n : String) (w : Walk)
        → rank n < fuel
        → rank n < k
        → Stacked rank k w
        → Ordered [] w.order
        → Grows w (f n w) × Placed (f n w) n

    visit_all-Grows :
        (f : String → Walk → Walk) (fuel : ℕ)
        → Visits f fuel
        → (k : ℕ) (ns : List String) (w : Walk)
        → ((n : String) → In n ns → (rank n < fuel) × (rank n < k))
        → Stacked rank k w
        → Ordered [] w.order
        → Grows w (visit_all f ns w) × ((n : String) → In n ns → Placed (visit_all f ns w) n)
    unfolding visit_all
    visit_all-Grows f fuel v k [] w small h o = (Grows-refl w o, λ n i. absurd i)
    visit_all-Grows f fuel v k (n ∷ ns) w small h o =
        let (l, m) = small n (inl refl) in
        let (g, placed) = v k n w l m h o in
        let (gs, rest) =
          visit_all-Grows f fuel v k ns (f n w) (λ x i. small x (inr i))
            (Grows-Stacked rank k w (f n w) g h) g.ordered in
        (
          Grows-trans w (f n w) _ g gs,
          λ x i. elim i [
            | inl e ↦ λ t s. gs.kept t (placed t (ap (λ z. service_of z services) (sym e) ∙ s))
            | inr j ↦ rest x j
          ],
        )

    -- The end of a visit.
    place :
        (name : String) (w below : Walk) (o : Option Service)
        → service_of name services ≡ o
        → Grows (record w { visited = name ∷ w.visited }) below
        → ((d : String) → In d (dependencies o) → Placed below d)
        → let w' : Walk = record below { order = appended o below.order } in
          Grows w w' × Placed w' name
    place name w below none e g deps = (
      record {
        ordered = g.ordered;
        kept = g.kept;
        seen = λ m i. elim (g.seen m i) [
          | inl p ↦ inl p
          | inr (inl f) ↦ inl (λ t s. let k = ap (λ z. service_of z services) f in cc)
          | inr (inr j) ↦ inr j
        ];
      },
      λ t s. cc,
    )
    place name w below (some s) e g deps =
        let last : In s (below.order ++ s ∷ []) =
          In-append_right s below.order (s ∷ []) (inl refl) in
        let here : (m : String)
            → m ≡ name
            → (t : Service) → service_of m services ≡ some t
            → In t (below.order ++ s ∷ []) =
          λ m f t h.
            subst (λ z. In z (below.order ++ s ∷ []))
              (some_same (sym e ∙ ap (λ z. service_of z services) (sym f) ∙ h)) last in
        (
          record {
            ordered = Ordered-append [] below.order s g.ordered (λ d t i h. deps d i t h);
            kept = λ t i. In-append_left t below.order (s ∷ []) (g.kept t i);
            seen = λ m i. elim (g.seen m i) [
              | inl p ↦ inl (λ t h. In-append_left t below.order (s ∷ []) (p t h))
              | inr (inl f) ↦ inl (here m f)
              | inr (inr j) ↦ inr j
            ];
          },
          here name refl,
        )
      where
        some_same : {t : Service} → ◌≡◌ {A = Option Service} (some s) (some t) → s ≡ t
        some_same p = cc

    visit-Grows : (fuel : ℕ) → Visits (visit services fuel) fuel
    unfolding visit
    visit-Grows zero k n w l m h o = absurd (omega arith)
    visit-Grows (suc fuel) k n w l m h o = elim (Bool-cases (contains n w.visited)) [
      | inl e ↦
          rw (e, visit)
            (
              Grows-refl w o,
              elim (h n (contains-In n w.visited e)) [ inl p ↦ p | inr q ↦ absurd (omega arith) ],
            )
      | inr e ↦
          let s = service_of n services in
          let w1 : Walk = record w { visited = n ∷ w.visited } in
          let stacked : Stacked rank (rank n) w1 = λ x i. elim i [
            | inl f ↦ inr (let r = ap rank f in omega arith)
            | inr j ↦ elim (h x j) [ inl p ↦ inl p | inr q ↦ inr (omega arith) ]
          ] in
          let (g, deps) =
            visit_all-Grows (visit services fuel) fuel (visit-Grows fuel) (rank n) (dependencies s)
              w1 (λ d i. let q = lower n d i in (omega arith, q)) stacked o in
          rw (e, visit) (place n w _ s refl g deps)
    ]

    -- If the dependencies have no cycle, so that names have ranks that fall along them and are at most
    -- the number of services, topologicalSort gives each service behind the services that it depends
    -- on, and gives the service of every key.
    pub topological_sort-Ordered :
        ((n : String) → rank n ≤ length services)
        → (keys : List String)
        → Ordered [] (topological_sort services keys)
          × ((n : String) (s : Service)
              → In n keys
              → service_of n services ≡ some s
              → In s (topological_sort services keys))
    unfolding topological_sort
    topological_sort-Ordered small keys =
        let start : Walk = record { visited = []; order = [] } in
        let fuel = suc (suc (length services)) in
        let (g, placed) =
          visit_all-Grows (visit services fuel) fuel (visit-Grows fuel) fuel keys start
            (λ n i. let q = small n in (omega arith, omega arith)) (λ m i. absurd i) tt in
        (g.ordered, λ n s i e. placed n i s e)
