-- ===== src/Docker/Lifecycle/Status.antt =====
-- The status that GetProjectStatus gives a project, by the containers listed for it.
use compose_cockpit.Base.{
  ℕ, Bool, true, false, List, [], ◌∷◌, ◌≡◌, refl, ap, filter, length, Bool-cases, inl, inr, ◌==◌,
  ◌↔◌, ◌≢◌, ◌⊎◌, suc, ◌≤◌, ◌<◌, arith, if◌then◌else◌, All,
}
use compose_cockpit.Domain.Project.{ProjectStatus, running, partial, stopped}
use compose_cockpit.Docker.Client.{ContainerInfo}
use compose_cockpit.Docker.Lifecycle.{is_running, status_of}

module _ {A : Type 0} (p : A → Bool) where
  length-filter : (xs : List A) → length (filter p xs) ≤ length xs
  length-filter [] = omega arith
  length-filter (x ∷ xs) = elim (Bool-cases (p x)) [
    | inl e ↦ rw (e, filter) (omega (arith, length-filter xs))
    | inr e ↦ rw (e, filter) (omega (arith, length-filter xs))
  ]

  kept_of_count : (xs : List A) → length (filter p xs) ≡ length xs → All (λ x. p x ≡ true) xs
  kept_of_count [] = λ h. tt
  kept_of_count (x ∷ xs) = elim (Bool-cases (p x)) [
    | inl e ↦ rw (e, filter) (λ h. (refl, kept_of_count xs (omega arith)))
    | inr e ↦ rw (e, filter) (λ h. absurd (omega (arith, length-filter xs)))
  ]

  count_of_kept : (xs : List A) → All (λ x. p x ≡ true) xs → length (filter p xs) ≡ length xs
  count_of_kept [] h = refl
  count_of_kept (x ∷ xs) (e, h) = rw (e, filter) (ap suc (count_of_kept xs h))

  dropped_of_count : (xs : List A) → length (filter p xs) ≡ 0 → All (λ x. p x ≡ false) xs
  dropped_of_count [] = λ h. tt
  dropped_of_count (x ∷ xs) = elim (Bool-cases (p x)) [
    | inl e ↦ rw (e, filter) (λ h. absurd (omega arith))
    | inr e ↦ rw (e, filter) (λ h. (refl, dropped_of_count xs h))
  ]

  count_of_dropped : (xs : List A) → All (λ x. p x ≡ false) xs → length (filter p xs) ≡ 0
  count_of_dropped [] h = refl
  count_of_dropped (x ∷ xs) (e, h) = rw (e, filter) (count_of_dropped xs h)

-- The status by the number of running containers and the number of all.
by_counts : (n m : ℕ) → ProjectStatus
by_counts n m = if n == m then running else if n == 0 then stopped else partial

by_counts-cases :
    (n m : ℕ)
    → n ≤ m
    → 0 < m
    → ((by_counts n m ≡ running) ↔ (n ≡ m))
      × ((by_counts n m ≡ stopped) ↔ (n ≡ 0))
      × ((by_counts n m ≡ running) ⊎ (by_counts n m ≡ stopped) ⊎ (by_counts n m ≡ partial))
unfolding by_counts
by_counts-cases n m le pos = ground arith

-- A project is running exactly if it has a container and all of them are running, and stopped exactly
-- if none of them is running; in every other case it is partial.
status_of-cases :
    (cs : List ContainerInfo)
    → ((status_of cs ≡ running) ↔ ((cs ≢ []) × All (λ c. is_running c ≡ true) cs))
      × ((status_of cs ≡ stopped) ↔ All (λ c. is_running c ≡ false) cs)
      × ((status_of cs ≡ running) ⊎ (status_of cs ≡ stopped) ⊎ (status_of cs ≡ partial))
unfolding status_of by_counts
status_of-cases [] =
    (((λ h. cc), (λ h. elim (h.0 refl) [ ])), ((λ _. tt), (λ _. refl)), inr (inl refl))
status_of-cases (c ∷ cs) =
    let xs = c ∷ cs in
    let (run, stop, rest) =
      by_counts-cases (length (filter is_running xs)) (length xs) (length-filter is_running xs)
        (omega arith) in
    (
      (
        (λ h. ((λ e. cc), kept_of_count is_running xs (run.0 h))),
        (λ h. run.1 (count_of_kept is_running xs h.1)),
      ),
      (
        (λ h. dropped_of_count is_running xs (stop.0 h)),
        (λ h. stop.1 (count_of_dropped is_running xs h)),
      ),
      rest,
    )
