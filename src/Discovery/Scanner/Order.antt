-- ===== src/Discovery/Scanner/Order.antt =====
-- deduplicateAndOrder of internal/discovery/scanner.go: what it keeps, and in which order.
use mathlib.Core.List.{append_assoc, append-nil}
use compose_cockpit.Base.{
  ◌&&◌, subst, String, Bool, true, false, not, List, [], ◌∷◌, ◌++◌, ◌≡◌, refl, sym, ap, ◌∙◌,
  contains, filter, Bool-cases, inl, inr, arith, same, same_self, eq_of_same,
}
use compose_cockpit.Discovery.Scanner.{
  FileSystem, Sorted, is_override, sort_file, sort_files, deduplicate_and_order,
}

-- The files that were not seen, each at its first place.
abbrev new_files : List String → List String → List String
new_files seen [] = []
new_files seen (f ∷ files) = elim (contains f seen) [
  | true ↦ new_files seen files
  | false ↦ f ∷ new_files (f ∷ seen) files
]

-- Each text once, at its first place.
abbrev pub first_places : List String → List String
first_places [] = []
first_places (f ∷ files) = f ∷ filter (λ g. not (same f g)) (first_places files)

-- No text stands in the list twice.
abbrev pub DistinctTexts : List String → Type 0
DistinctTexts [] = Unit
DistinctTexts (f ∷ fs) = (contains f fs ≡ false) × DistinctTexts fs

new_files-skip :
    (f : String) (seen files : List String)
    → contains f seen ≡ true
    → new_files seen (f ∷ files) ≡ new_files seen files
new_files-skip f seen files e = rw (e, new_files) refl

new_files-keep :
    (f : String) (seen files : List String)
    → contains f seen ≡ false
    → new_files seen (f ∷ files) ≡ f ∷ new_files (f ∷ seen) files
new_files-keep f seen files e = rw (e, new_files) refl

new_files-unseen :
    (g : String) (seen files : List String)
    → contains g (new_files seen files) ≡ true
    → contains g seen ≡ false
new_files-unseen g seen [] h = absurd cc
new_files-unseen g seen (f ∷ files) h = elim (Bool-cases (contains f seen)) [
  | inl e ↦
      new_files-unseen g seen files (ap (contains g) (sym (new_files-skip f seen files e)) ∙ h)
  | inr e ↦ elim (Bool-cases (same f g)) [
    | inl same_one ↦ rw (← eq_of_same f g same_one) e
    | inr differ ↦
        let later : contains g (new_files (f ∷ seen) files) ≡ true =
          ground (arith, differ, ap (contains g) (new_files-keep f seen files e), h) in
        ground (arith, differ, new_files-unseen g (f ∷ seen) files later)
  ]
]

new_files-DistinctTexts : (seen files : List String) → DistinctTexts (new_files seen files)
new_files-DistinctTexts seen [] = tt
new_files-DistinctTexts seen (f ∷ files) = elim (Bool-cases (contains f seen)) [
  | inl e ↦ rw (e, new_files) (new_files-DistinctTexts seen files)
  | inr e ↦ rw (e, new_files) (fresh, new_files-DistinctTexts (f ∷ seen) files)
]
  where
    fresh : contains f (new_files (f ∷ seen) files) ≡ false
    fresh = elim (Bool-cases (contains f (new_files (f ∷ seen) files))) [
      | inl h ↦ ground (arith, new_files-unseen f (f ∷ seen) files h, same_self f)
      | inr h ↦ h
    ]

new_files-contains :
    (g : String) (seen files : List String)
    → contains g seen ≡ false
    → contains g (new_files seen files) ≡ contains g files
new_files-contains g seen [] h = refl
new_files-contains g seen (f ∷ files) h = elim (Bool-cases (contains f seen)) [
  | inl e ↦ elim (Bool-cases (same f g)) [
    | inl same_one ↦ ground (arith, e, h, eq_of_same f g same_one)
    | inr differ ↦ rw (e, new_files, differ) (new_files-contains g seen files h)
  ]
  | inr e ↦ elim (Bool-cases (same f g)) [
    | inl same_one ↦ rw (e, new_files, same_one) refl
    | inr differ ↦
        rw (e, new_files, differ) (new_files-contains g (f ∷ seen) files (rw (differ, contains) h))
  ]
]

filter-filter :
    (p q r : String → Bool) (xs : List String)
    → ((x : String) → (q x && p x) ≡ r x)
    → filter p (filter q xs) ≡ filter r xs
filter-filter p q r [] h = refl
filter-filter p q r (x ∷ xs) h = ground (arith, filter-filter p q r xs h, h x)

abbrev unseen_in : List String → String → Bool
unseen_in seen g = not (contains g seen)

seen_already :
    (f : String) (seen : List String)
    → contains f seen ≡ true
    → (x : String) → (not (same f x) && unseen_in seen x) ≡ unseen_in seen x
seen_already f seen e x = elim (Bool-cases (same f x)) [
  | inl h ↦ rw (← eq_of_same f x h, same_self f, e) refl
  | inr h ↦ rw (h) refl
]

filter_all : (xs : List String) → filter (unseen_in []) xs ≡ xs
filter_all [] = refl
filter_all (x ∷ xs) = ap (◌∷◌ x) (filter_all xs)

new_files-first_places :
    (seen files : List String) → new_files seen files ≡ filter (unseen_in seen) (first_places files)
new_files-first_places seen [] = refl
new_files-first_places seen (f ∷ files) = elim (Bool-cases (contains f seen)) [
  | inl e ↦
      rw (new_files-skip f seen files e, e)
        (new_files-first_places seen files
          ∙ sym (filter-filter _ _ (unseen_in seen) (first_places files) (seen_already f seen e)))
  | inr e ↦
      rw (new_files-keep f seen files e, e)
        (ap (◌∷◌ f) (
          new_files-first_places (f ∷ seen) files
          ∙ sym
              (filter-filter _ _ (unseen_in (f ∷ seen)) (first_places files) (λ x. ground arith))))
]

module _ (fs : FileSystem) where
  abbrev first_files : String → Bool
  first_files f = not (is_override fs f)

  abbrev with_override : String → Sorted → Sorted
  with_override f s = record {
    seen = f ∷ s.seen;
    primary = s.primary;
    overrides = s.overrides ++ f ∷ [];
  }

  abbrev with_primary : String → Sorted → Sorted
  with_primary f s = record {
    seen = f ∷ s.seen;
    primary = s.primary ++ f ∷ [];
    overrides = s.overrides;
  }

  sort_file-seen : (f : String) (s : Sorted) → contains f s.seen ≡ true → sort_file fs f s ≡ s
  unfolding sort_file
  sort_file-seen f s e = rw (sort_file, e) refl

  sort_file-override :
      (f : String) (s : Sorted)
      → contains f s.seen ≡ false
      → is_override fs f ≡ true
      → sort_file fs f s ≡ with_override f s
  unfolding sort_file
  sort_file-override f s e o = ground (arith, e, o)

  sort_file-primary :
      (f : String) (s : Sorted)
      → contains f s.seen ≡ false
      → is_override fs f ≡ false
      → sort_file fs f s ≡ with_primary f s
  unfolding sort_file
  sort_file-primary f s e o = ground (arith, e, o)

  sort_files-new :
      (files : List String) (s : Sorted)
      → ((sort_files fs files s).primary ≡ s.primary ++ filter first_files (new_files s.seen files))
        × ((sort_files fs files s).overrides
            ≡ s.overrides ++ filter (is_override fs) (new_files s.seen files))
  unfolding sort_files
  sort_files-new [] s = (sym (append-nil s.primary), sym (append-nil s.overrides))
  sort_files-new (f ∷ files) s = elim (Bool-cases (contains f s.seen)) [
    | inl e ↦
        rw (sort_files, sort_file-seen f s e, new_files-skip f s.seen files e)
          (sort_files-new files s)
    | inr e ↦ elim (Bool-cases (is_override fs f)) [
      | inl o ↦
          let (p, q) = sort_files-new files (with_override f s) in
          rw (sort_files, sort_file-override f s e o, new_files-keep f s.seen files e, o)
            (p, q ∙ append_assoc s.overrides (f ∷ []) _)
      | inr o ↦
          let (p, q) = sort_files-new files (with_primary f s) in
          rw (sort_files, sort_file-primary f s e o, new_files-keep f s.seen files e, o)
            (p ∙ append_assoc s.primary (f ∷ []) _, q)
    ]
  ]

  -- The files that are kept are those of the list, each once and in the order of their first places;
  -- of these, the ones that are no overrides come first, and then the overrides.
  pub deduplicate_and_order-first_places :
      (files : List String)
      → DistinctTexts (first_places files)
        × ((g : String) → contains g (first_places files) ≡ contains g files)
        × (deduplicate_and_order fs files
            ≡ filter (λ f. not (is_override fs f)) (first_places files)
              ++ filter (is_override fs) (first_places files))
  unfolding deduplicate_and_order
  deduplicate_and_order-first_places files =
      let e : new_files [] files ≡ first_places files =
        new_files-first_places [] files ∙ filter_all (first_places files) in
      let (p, q) = sort_files-new files (record { seen = []; primary = []; overrides = [] }) in
      (
        subst DistinctTexts e (new_files-DistinctTexts [] files),
        (λ g. ap (contains g) (sym e) ∙ new_files-contains g [] files refl),
        rw (p, q, e) refl,
      )
