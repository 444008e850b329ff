-- ===== src/Orchestrator/Exclusion.antt =====
-- Interleavings of calls of inMemoryLocker in internal/orchestrator/lock.go: at most one operation
-- holds a project, as long as each release function is called once, as `defer release()` does.
use mathlib.Core.Option.{some-injective}
use compose_cockpit.Base.{
  ◌∙◌, String, true, false, none, some, List, [], ◌∷◌, ◌++◌, ◌≡◌, ◌≢◌, refl, sym, ap, inl, inr, ◌⊎◌,
  same, In, All, All-In, Bool-cases, subst, eq_of_same, ◌↔◌, arith, same-false, same_self,
}
use compose_cockpit.Base.Dict.{lookup, insert, delete, lookup-insert, lookup-delete}
use compose_cockpit.Orchestrator.Lock.{
  Locks, granted, busy, attempt, try_acquire, release, attempt-granted, attempt-busy,
  try_acquire-true, try_acquire-false, release-held,
}

-- The locks, and the release functions that were handed out and not called yet: project and operation.
pub record System : Type 0 where
  pub locks : Locks
  pub held : List (String × String)

pub data Step : System → System → Type 0 where
  acquired :
      (s : System) (p op : String)
      → (attempt p op s.locks).0 ≡ granted
      → Step s (record { locks = (attempt p op s.locks).1; held = (p, op) ∷ s.held })
  waited :
      (s : System) (p op : String) {holder : String}
      → (attempt p op s.locks).0 ≡ busy holder
      → Step s (record s { locks = (attempt p op s.locks).1 })
  try_acquired :
      (s : System) (p op : String)
      → (try_acquire p op s.locks).0 ≡ true
      → Step s (record { locks = (try_acquire p op s.locks).1; held = (p, op) ∷ s.held })
  try_refused :
      (s : System) (p op : String)
      → (try_acquire p op s.locks).0 ≡ false
      → Step s (record s { locks = (try_acquire p op s.locks).1 })
  released :
      (locks : Locks) (before after : List (String × String)) (p op : String)
      → Step
          (record { locks = locks; held = before ++ (p, op) ∷ after })
          (record { locks = release p locks; held = before ++ after })

pub data Reached : System → Type 0 where
  start : Reached (record { locks = []; held = [] })
  next : {s t : System} → Reached s → Step s t → Reached t

-- No two of the release functions are for one project.
abbrev pub Apart : List (String × String) → Type 0
Apart [] = Unit
Apart (x ∷ xs) = All (λ y. y.0 ≢ x.0) xs × Apart xs

-- The locks are those that are held.
abbrev pub Agrees : System → Type 0
Agrees s =
    Apart s.held
    × ((p op : String) → In (p, op) s.held → lookup p s.locks ≡ some op)
    × ((p op : String) → lookup p s.locks ≡ some op → In (p, op) s.held)

module _ {A : Type 0} (P : A → Type 0) where
  All-of_In : (xs : List A) → ((x : A) → In x xs → P x) → All P xs
  All-of_In [] h = tt
  All-of_In (x ∷ xs) h = (h x (inl refl), All-of_In xs (λ y m. h y (inr m)))

  All-drop : (xs : List A) (a : A) (ys : List A) → All P (xs ++ a ∷ ys) → P a × All P (xs ++ ys)
  All-drop [] a ys h = h
  All-drop (x ∷ xs) a ys (px, h) = let (pa, rest) = All-drop xs a ys h in (pa, (px, rest))

module _ {A : Type 0} where
  -- The middle element, or one of the others.
  pub In-middle :
      (b : A) (xs : List A) (a : A) (ys : List A) → In b (xs ++ a ∷ ys) ↔ (b ≡ a) ⊎ In b (xs ++ ys)
  In-middle b [] a ys = ((λ h. h), (λ h. h))
  In-middle b (x ∷ xs) a ys = let (to, from) = In-middle b xs a ys in ground arith

Apart-drop :
    (xs : List (String × String)) (a : String × String) (ys : List (String × String))
    → Apart (xs ++ a ∷ ys)
    → All (λ y. y.0 ≢ a.0) (xs ++ ys) × Apart (xs ++ ys)
Apart-drop [] a ys h = h
Apart-drop (x ∷ xs) a ys (fresh, h) =
    let (apart, rest) = Apart-drop xs a ys h in
    let (xa, others) = All-drop (λ y. y.0 ≢ x.0) xs a ys fresh in
    (((λ e. xa (sym e)), apart), (others, rest))

-- A project that is free may be taken.
take-Agrees :
    (s : System) (p op : String)
    → lookup p s.locks ≡ none
    → Agrees s
    → Agrees (record { locks = insert p op s.locks; held = (p, op) ∷ s.held })
take-Agrees s p op free (apart, sound, complete) = (
  (
    All-of_In (λ y. y.0 ≢ p) s.held (λ y m e. no_other y.1 (subst (λ q. In (q, y.1) s.held) e m)),
    apart,
  ),
  take_sound,
  take_complete,
)
  where
    no_other : (o : String) → ¬ In (p, o) s.held
    no_other o m = let e = sound p o m in cc

    take_sound :
        (q o : String)
        → ◌≡◌ {A = String × String} (q, o) (p, op) ⊎ In (q, o) s.held
        → lookup q (insert p op s.locks) ≡ some o
    take_sound q o (inl e) =
        rw (lookup-insert p q op s.locks, ap (λ x. x.0) e, ap (λ x. x.1) e, same_self p) refl
    take_sound q o (inr m) =
        let e = sound q o m in
        rw
          (
            lookup-insert p q op s.locks,
            same-false p q (λ f. let g = ap (λ z. lookup z s.locks) f in cc),
          )
          e

    take_complete :
        (q o : String)
        → lookup q (insert p op s.locks) ≡ some o
        → ◌≡◌ {A = String × String} (q, o) (p, op) ⊎ In (q, o) s.held
    take_complete q o = elim (Bool-cases (same p q)) [
      | inl e ↦ rw (lookup-insert p q op s.locks, e) (λ h. inl (let f = eq_of_same p q e in cc))
      | inr e ↦ rw (lookup-insert p q op s.locks, e) (λ h. inr (complete q o h))
    ]

give-Agrees :
    (locks : Locks) (before after : List (String × String)) (p op : String)
    → Agrees (record { locks = locks; held = before ++ (p, op) ∷ after })
    → Agrees (record { locks = release p locks; held = before ++ after })
give-Agrees locks before after p op (apart, sound, complete) =
    let (fresh, rest) = Apart-drop before (p, op) after apart in
    let mine = sound p op ((In-middle (p, op) before (p, op) after).1 (inl refl)) in
    rw (release-held p op locks mine) (
      rest,
      (λ q o m.
          rw
            (
              lookup-delete p q locks,
              same-false p q (λ e. All-In (λ y. y.0 ≢ p) (q, o) (before ++ after) fresh m (sym e)),
            )
            (sound q o ((In-middle (q, o) before (p, op) after).1 (inr m)))),
      give_complete,
    )
  where
    give_complete :
        (q o : String) → lookup q (delete p locks) ≡ some o → In (q, o) (before ++ after)
    give_complete q o = elim (Bool-cases (same p q)) [
      | inl e ↦ rw (lookup-delete p q locks, e) (λ h. cc)
      | inr e ↦
          rw (lookup-delete p q locks, e)
            (λ h. elim ((In-middle (q, o) before (p, op) after).0 (complete q o h)) [
              | inl f ↦
                  let g = same_self p in
                  let k = ap (λ x. x.0) f in let j = ap (same p) k in absurd (cc)
              | inr m ↦ m
            ])
    ]

-- In every reachable state the locks are exactly those that are held, each by one operation.
pub Reached-Agrees : {s : System} → Reached s → Agrees s
Reached-Agrees start = (tt, (λ p op h. elim h [ ]), (λ p op h. cc))
Reached-Agrees (next r (acquired s p op got)) =
    let (free, e) = attempt-granted p op s.locks got in
    rw e (take-Agrees s p op free (Reached-Agrees r))
Reached-Agrees (next r (waited s p op got)) =
    rw (attempt-busy p op _ s.locks got).1 (Reached-Agrees r)
Reached-Agrees (next r (try_acquired s p op got)) =
    let (free, e) = try_acquire-true p op s.locks got in
    rw e (take-Agrees s p op free (Reached-Agrees r))
Reached-Agrees (next r (try_refused s p op got)) =
    rw (try_acquire-false p op s.locks got) (Reached-Agrees r)
Reached-Agrees (next r (released locks before after p op)) =
    give-Agrees locks before after p op (Reached-Agrees r)

-- Two operations never hold one project at the same time, whatever calls of the locker come before, if
-- each release function is called at most once.
pub Reached-exclusive :
    {s : System} (p o o' : String) → Reached s → In (p, o) s.held → In (p, o') s.held → o ≡ o'
Reached-exclusive p o o' r m m' =
    let (apart, sound, complete) = Reached-Agrees r in
    some-injective o o' (sym (sound p o m) ∙ sound p o' m')
