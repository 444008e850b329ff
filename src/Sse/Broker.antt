-- ===== src/Sse/Broker.antt =====
-- internal/sse/broker.go: Subscribe, Publish, Close and the goroutine that removes a subscriber. Each
-- operation is what the code does under the broker's mutex.
pub mod Delivery
use compose_cockpit.Base.{
  ℕ, zero, suc, ◌+◌, ◌%◌, ◌^◌, String, Bool, true, false, Option, none, some, List, [], ◌∷◌, ◌++◌,
  ◌≡◌, refl, same, ltb, ◌==◌, ◌&&◌, ◌||◌, length, contains, if◌then◌else◌,
}
use compose_cockpit.Base.Dict.{Dict, lookup, insert, delete}
use compose_cockpit.Base.Text.{cat}

-- `Event`; the data is kept as its JSON text, and a zero timestamp is 0.
pub record Event : Type 0 where
  pub id : String
  pub type : String
  pub topic : String
  pub payload : String
  pub timestamp : ℕ

-- `subscriber`: the events in its channel, which holds at most 128, and whether its context has ended.
pub record Subscriber : Type 0 where
  pub id : String
  pub buffer : List Event
  pub topics : List String
  pub cancelled : Bool

-- The broker with the package's counter of identifiers.
pub record Broker : Type 0 where
  pub subscribers : Dict Subscriber
  pub closed : Bool
  pub counter : ℕ

abbrev pub capacity : ℕ
capacity = 128

-- NewBroker, when the counter stands at `n`.
abbrev pub new_broker : ℕ → Broker
new_broker n = record { subscribers = []; closed = false; counter = n }

-- `string(rune('0' + n))` for a digit.
abbrev pub digit_in : ℕ → List String → String
digit_in zero (t ∷ ts) = t
digit_in (suc m) (t ∷ ts) = digit_in m ts
digit_in n [] = ""

digits : List String
digits = "0" ∷ "1" ∷ "2" ∷ "3" ∷ "4" ∷ "5" ∷ "6" ∷ "7" ∷ "8" ∷ "9" ∷ []

-- generateID: `second` is the time in the format 20060102150405. It gives the identifier and the new
-- counter, a uint64.
pub generate_id : String → ℕ → String × ℕ
unfolding digits
generate_id second counter =
    let n = (counter + 1) % 2 ^ 64 in (cat second (cat "-" (digit_in (n % 10) digits)), n)

-- Subscribe: the identifier of the subscriber, and the broker.
pub subscribe : String → List String → Broker → String × Broker
unfolding generate_id
subscribe second topics b =
    let g = generate_id second b.counter in
    let s : Subscriber = record { id = g.0; buffer = []; topics = topics; cancelled = false } in
    (g.0, record b { subscribers = insert g.0 s b.subscribers; counter = g.1 })

-- The goroutine of a subscriber, when its context has ended.
pub reap : String → Broker → Broker
reap id b = record b { subscribers = delete id b.subscribers }

unfoldable pub wants : String → Subscriber → Bool
wants topic s = contains topic s.topics || contains "*" s.topics

-- `select { case sub.ch <- event: default: }`
pub offer : Event → Subscriber → Subscriber
offer e s = if ltb (length s.buffer) capacity then record s { buffer = s.buffer ++ e ∷ [] } else s

pub deliver : String → Event → Subscriber → Subscriber
unfolding wants offer
deliver topic e s = if wants topic s then offer e s else s

-- `for _, sub := range b.subscribers`
each : (Subscriber → Subscriber) → Dict Subscriber → Dict Subscriber
each f [] = []
each f ((k, s) ∷ m) = (k, f s) ∷ each f m

-- The event that Publish sends, with the identifier and the time that it lacked.
pub completed : String → ℕ → String → String → Event → Event
completed fresh now topic id e = record e {
  topic = topic;
  timestamp = if e.timestamp == 0 then now else e.timestamp;
  id = if same id "" then fresh else id;
}

pub publish : String → ℕ → String → Event → Broker → Broker
unfolding each deliver completed generate_id
publish second now topic e b =
    let g = generate_id second b.counter in
    if b.closed then b else record b {
      subscribers = each (deliver topic (completed g.0 now topic e.id e)) b.subscribers;
      counter = if same e.id "" then g.1 else b.counter;
    }

shutdown_event : String → ℕ → Event
shutdown_event id now = record {
  id = id;
  type = "shutdown";
  topic = "";
  payload = "null";
  timestamp = now;
}

pub close : String → ℕ → Broker → Broker
unfolding each offer generate_id shutdown_event
close second now b =
    let g = generate_id second b.counter in
    record {
      subscribers =
          each (λ s. record (offer (shutdown_event g.0 now) s) { cancelled = true }) b.subscribers;
      closed = true;
      counter = g.1;
    }
