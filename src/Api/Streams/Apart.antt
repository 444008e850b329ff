-- ===== src/Api/Streams/Apart.antt =====
-- Which streams of internal/api/handlers/events_handler.go share their topics.
use mathlib.Core.Option.{some-injective}
use text.Mathlib.TextLemmas.{cons-append}
use compose_cockpit.Base.{
  ℕ, ◌≢◌, inl, inr, String, true, false, Option, none, some, ◌≡◌, refl, ap, sym, ◌∙◌, arith, same,
  same-false, contains, ◌||◌, eq_iff, if◌then◌else◌,
}
use compose_cockpit.Base.Text.{cat, cut, last_cut, has}
use compose_cockpit.Base.Text.Laws.{cat-sep, cut-cat, last_cut-cat, sep}
use compose_cockpit.Base.Dict.{lookup}
use compose_cockpit.Sse.Broker.{Event, Broker, Subscriber, wants, publish}
use compose_cockpit.Sse.Broker.Delivery.{Subscribes, publish-delivers, wants-Subscribes}
use compose_cockpit.Api.Streams.{
  Watch, project_events, project_stats, service_logs, global_events, project_topic, topic_of,
  topics_of,
}

-- An identifier of a project has no colon.
abbrev pub Plain : Watch → Type 0
Plain (project_events id) = has ":" id ≡ false
Plain (project_stats id) = has ":" id ≡ false
Plain (service_logs id service) = has ":" id ≡ false
Plain global_events = Unit

-- A topic is read back by its colons.
parse_logs : String → Option (String × String) → Option Watch
parse_logs id none = none
parse_logs id (some (service, end)) = some (service_logs id service)

parse_rest : String → String → Option (String × String) → Option Watch
unfolding parse_logs
parse_rest id rest none = some (if same rest "events" then project_events id else project_stats id)
parse_rest id rest (some (name, after)) = parse_logs id (last_cut ":" after)

parse_id : Option (String × String) → Option Watch
unfolding parse_rest
parse_id none = some global_events
parse_id (some (id, rest)) = parse_rest id rest (cut ":" rest)

parse_topic : Option (String × String) → Option Watch
unfolding parse_id
parse_topic none = none
parse_topic (some (kind, rest)) = parse_id (cut ":" rest)

cut-project : (x : String) → cut ":" (cat "project:" x) ≡ some ("project", x)
unfolding has
cut-project x = ap (cut ":") (cat-sep ":" "project" x) ∙ cut-cat ":" "project" x refl

cut-service : (x : String) → cut ":" (cat "service:" x) ≡ some ("service", x)
unfolding has
cut-service x = ap (cut ":") (cat-sep ":" "service" x) ∙ cut-cat ":" "service" x refl

parse_project :
    (id r : String)
    → has ":" id ≡ false
    → parse_topic (cut ":" (project_topic id (sep ":" r))) ≡ parse_rest id r (cut ":" r)
unfolding parse_topic parse_id
parse_project id r h =
    ap parse_topic (cut-project (cat id (sep ":" r))) ∙ ap parse_id (cut-cat ":" id r h)

parse_topic-topic_of : (w : Watch) → Plain w → parse_topic (cut ":" (topic_of w)) ≡ some w
unfolding parse_topic topic_of parse_rest parse_logs cut has
parse_topic-topic_of (project_events id) h = parse_project id "events" h
parse_topic-topic_of (project_stats id) h = parse_project id "stats" h
parse_topic-topic_of (service_logs id service) h =
    let x = cat service ":logs" in
    ap (λ t. parse_topic (cut ":" (project_topic id t))) (cons-append ":" "service:" x)
    ∙ parse_project id (cat "service:" x) h
    ∙ ap (parse_rest id (cat "service:" x)) (cut-service x)
    ∙ ap (parse_logs id) (last_cut-cat ":" service "logs" refl)
parse_topic-topic_of global_events h = refl

-- Two streams of projects whose identifiers have no colon share a topic only if they are the same
-- stream: the same handler for the same project, and the same service for logs.
topic_of-injective : (w v : Watch) → Plain w → Plain v → topic_of w ≡ topic_of v → w ≡ v
topic_of-injective w v hw hv e = some-injective w v (
    sym (parse_topic-topic_of w hw)
    ∙ ap (λ t. parse_topic (cut ":" t)) e
    ∙ parse_topic-topic_of v hv)

project-star : (x : String) → same (cat "project:" x) "*" ≡ false
unfolding cut
project-star x = same-false _ _ (λ e. let f = sym (cut-project x) ∙ ap (cut ":") e in absurd (cc))

topic_of-star : (w : Watch) → same (topic_of w) "*" ≡ false
unfolding topic_of
topic_of-star (project_events id) = project-star (cat id ":events")
topic_of-star (project_stats id) = project-star (cat id ":stats")
topic_of-star (service_logs id service) =
    project-star (cat id (cat ":service:" (cat service ":logs")))
topic_of-star global_events = refl

-- A subscriber of one stream wants the topic of another one only if they are the same.
wants-own :
    (w v : Watch) (s : Subscriber)
    → s.topics ≡ topics_of w
    → Plain w
    → Plain v
    → wants (topic_of v) s ≡ true
    → w ≡ v
unfolding wants topics_of
wants-own w v s own hw hv h =
    let g = sym (ap (λ t. contains (topic_of v) t || contains "*" t) own) ∙ h in
    let star = topic_of-star w in
    topic_of-injective w v hw hv (ground (arith, eq_iff (topic_of w) (topic_of v)))

-- What is published for one stream does not reach a subscriber of another one, be it for another
-- project, another service or another kind: its buffer stays as it is. The identifiers of projects
-- have no colon.
pub publish-apart :
    (second : String) (now : ℕ) (w v : Watch) (i : String) (e : Event) (b : Broker) {s : Subscriber}
    → b.closed ≡ false
    → lookup i b.subscribers ≡ some s
    → s.topics ≡ topics_of w
    → Plain w
    → Plain v
    → w ≢ v
    → (s' : Subscriber) × (lookup i (publish second now (topic_of v) e b).subscribers ≡ some s')
      × (s'.buffer ≡ s.buffer)
publish-apart second now w v i e b {s} alive found own hw hv ne =
    let (sent, s', event, there, delivered) =
      publish-delivers second now (topic_of v) i e b s alive found in
    let other : ¬ Subscribes (topic_of v) s =
      λ asked. ne (wants-own w v s own hw hv ((wants-Subscribes (topic_of v) s).1 asked)) in
    (
      s',
      there,
      elim delivered [
        | inl (asked, room, put) ↦ absurd (other asked)
        | inr (inl (asked, full, kept)) ↦ kept
        | inr (inr (unasked, kept)) ↦ kept
      ],
    )
