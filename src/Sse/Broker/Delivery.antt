-- ===== src/Sse/Broker/Delivery.antt =====
-- To whom the broker of internal/sse/broker.go delivers, and the bound of its buffers.
use compose_cockpit.Base.{
  In, contains, ◌⊎◌, ◌↔◌, ◌≢◌, eq_iff, ℕ, ◌+◌, ◌^◌, ◌≤◌, ◌<◌, String, true, false, some, List, [],
  ◌∷◌, ◌++◌, ◌≡◌, refl, same, ltb, ltb→lt, length, length-append, arith, Bool-cases, inl, inr, ap,
}
use compose_cockpit.Base.Dict.{Dict, lookup, insert, delete}
use compose_cockpit.Base.Text.{cat}
use compose_cockpit.Sse.Broker.{
  Event, Subscriber, Broker, capacity, digit_in, digits, generate_id, subscribe, reap, wants, offer,
  deliver, each, completed, publish, close,
}

lookup-each :
    (f : Subscriber → Subscriber) (i : String) (m : Dict Subscriber) (s : Subscriber)
    → lookup i m ≡ some s
    → lookup i (each f m) ≡ some (f s)
unfolding each
lookup-each f i [] s e = cc
lookup-each f i ((k, t) ∷ m) s e = ground (arith, lookup-each f i m s)

-- A subscriber of the topic, or of all topics.
abbrev pub Subscribes : String → Subscriber → Type 0
Subscribes topic s = In topic s.topics ⊎ In "*" s.topics

contains-In : (t : String) (ts : List String) → (contains t ts ≡ true) ↔ In t ts
contains-In t [] = ground arith
contains-In t (u ∷ ts) = ground (arith, eq_iff u t, eq_iff t u, contains-In t ts)

pub wants-Subscribes :
    (topic : String) (s : Subscriber) → (wants topic s ≡ true) ↔ Subscribes topic s
unfolding wants
wants-Subscribes topic s = ground (arith, contains-In topic s.topics, contains-In "*" s.topics)

-- What the buffer of a subscriber is after an event: the event is at its end, or it had no room, or the
-- subscriber has not asked for the topic.
abbrev pub Delivered : String → Event → Subscriber → List Event → Type 0
Delivered topic e s after =
    (Subscribes topic s × (length s.buffer < 128) × (after ≡ s.buffer ++ e ∷ []))
    ⊎ (Subscribes topic s × (128 ≤ length s.buffer) × (after ≡ s.buffer))
    ⊎ (¬ Subscribes topic s × (after ≡ s.buffer))

deliver-Delivered :
    (topic : String) (e : Event) (s : Subscriber) → Delivered topic e s (deliver topic e s).buffer
unfolding deliver offer
deliver-Delivered topic e s = elim (Bool-cases (wants topic s)) [
  | inl w ↦
      let asked = (wants-Subscribes topic s).0 w in
      elim (Bool-cases (ltb (length s.buffer) capacity)) [
        | inl r ↦ rw (w, r, deliver, offer) (inl (asked, ltb→lt (length s.buffer) capacity r, refl))
        | inr r ↦ rw (w, r, deliver, offer) (inr (inl (asked, ground arith, refl)))
      ]
  | inr w ↦
      rw (w, deliver)
        (inr (inr ((λ asked. let y = (wants-Subscribes topic s).1 asked in cc), refl)))
]

-- The event as it is sent: of the topic, with its own type and data, and with an identifier and a time
-- of its own, or those of the call.
abbrev pub Sent : String → ℕ → String → Event → Event → Type 0
Sent fresh now topic e sent =
    (sent.topic ≡ topic)
    × (sent.type ≡ e.type)
    × (sent.payload ≡ e.payload)
    × ((e.id ≢ "") × (sent.id ≡ e.id) ⊎ (e.id ≡ "") × (sent.id ≡ fresh))
    × ((e.timestamp ≢ 0) × (sent.timestamp ≡ e.timestamp)
        ⊎ (e.timestamp ≡ 0) × (sent.timestamp ≡ now))

completed-Sent :
    (fresh : String) (now : ℕ) (topic : String) (e : Event)
    → Sent fresh now topic e (completed fresh now topic e.id e)
unfolding completed
completed-Sent fresh now topic e = ground (arith, eq_iff e.id "")

-- What a publication at an open broker sends is an event of the topic, with the type and the data that
-- were given, and with an identifier and a time, which are new if there were none. For every subscriber
-- of the topic or of all topics that has fewer than 128 events waiting it comes to the end of the
-- buffer; the buffers of the others stay as they are.
pub publish-delivers :
    (second : String) (now : ℕ) (topic i : String) (e : Event) (b : Broker) (s : Subscriber)
    → b.closed ≡ false
    → lookup i b.subscribers ≡ some s
    → (sent : Event) × (s' : Subscriber) × Sent (generate_id second b.counter).0 now topic e sent
      × (lookup i (publish second now topic e b).subscribers ≡ some s')
      × Delivered topic sent s s'.buffer
unfolding publish
publish-delivers second now topic i e b s alive found =
    let fresh = (generate_id second b.counter).0 in
    let sent = completed fresh now topic e.id e in
    (
      sent,
      deliver topic sent s,
      completed-Sent fresh now topic e,
      rw (alive, publish) (lookup-each (deliver topic sent) i b.subscribers s found),
      deliver-Delivered topic sent s,
    )

abbrev pub Bounded : Dict Subscriber → Type 0
Bounded [] = Unit
Bounded ((k, s) ∷ m) = (length s.buffer ≤ capacity) × Bounded m

offer-length :
    (e : Event) (s : Subscriber) → length s.buffer ≤ capacity → length (offer e s).buffer ≤ capacity
unfolding offer
offer-length e s h = elim (Bool-cases (ltb (length s.buffer) capacity)) [
  | inl r ↦
      rw (r, offer, length-append)
        (omega (arith, ltb→lt (length s.buffer) capacity r, length-append s.buffer (e ∷ [])))
  | inr r ↦ rw (r, offer) h
]

deliver-length :
    (topic : String) (e : Event) (s : Subscriber)
    → length s.buffer ≤ capacity
    → length (deliver topic e s).buffer ≤ capacity
unfolding deliver
deliver-length topic e s h = elim (Bool-cases (wants topic s)) [
  | inl w ↦ rw (w, deliver) (offer-length e s h)
  | inr w ↦ rw (w, deliver) h
]

each-Bounded :
    (f : Subscriber → Subscriber) (m : Dict Subscriber)
    → ((s : Subscriber) → length s.buffer ≤ capacity → length (f s).buffer ≤ capacity)
    → Bounded m
    → Bounded (each f m)
unfolding each
each-Bounded f [] k h = tt
each-Bounded f ((i, s) ∷ m) k (hs, h) = (k s hs, each-Bounded f m k h)

insert-Bounded :
    (i : String) (s : Subscriber) (m : Dict Subscriber)
    → length s.buffer ≤ capacity
    → Bounded m
    → Bounded (insert i s m)
insert-Bounded i s [] hs h = (hs, tt)
insert-Bounded i s ((j, t) ∷ m) hs (ht, h) = elim (Bool-cases (same j i)) [
  | inl e ↦ rw (e, insert) (hs, h)
  | inr e ↦ rw (e, insert) (ht, insert-Bounded i s m hs h)
]

delete-Bounded : (i : String) (m : Dict Subscriber) → Bounded m → Bounded (delete i m)
delete-Bounded i [] h = tt
delete-Bounded i ((j, t) ∷ m) (ht, h) = elim (Bool-cases (same j i)) [
  | inl e ↦ rw (e, delete) (delete-Bounded i m h)
  | inr e ↦ rw (e, delete) (ht, delete-Bounded i m h)
]

-- No buffer exceeds its 128 places: subscribing, publishing, closing and the end of a subscriber keep
-- the bound.
operations-Bounded :
    (second : String) (now : ℕ) (topic id : String) (topics : List String) (e : Event) (b : Broker)
    → Bounded b.subscribers
    → Bounded (subscribe second topics b).1.subscribers
      × Bounded (publish second now topic e b).subscribers
      × Bounded (close second now b).subscribers
      × Bounded (reap id b).subscribers
unfolding subscribe publish close reap
operations-Bounded second now topic id topics e b h = (
  insert-Bounded _ _ b.subscribers (omega arith) h,
  elim (Bool-cases b.closed) [
    | inl c ↦ rw (c, publish) h
    | inr c ↦ rw (c, publish) (each-Bounded _ b.subscribers (deliver-length _ _) h)
  ],
  each-Bounded _ b.subscribers (offer-length _) h,
  delete-Bounded id b.subscribers h,
)

-- Within one second the identifiers repeat after ten: that of the subscription which comes ten
-- identifiers later is the same again.
generate_id-repeats :
    (second : String) (n : ℕ)
    → n + 11 < 2 ^ 64
    → (generate_id second (n + 10)).0 ≡ (generate_id second n).0
unfolding generate_id
generate_id-repeats second n h = ap (λ k. cat second (cat "-" (digit_in k digits))) (omega arith)
