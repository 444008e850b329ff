-- ===== src/Tests/Events.antt =====
-- A broker with one subscriber.
use compose_cockpit.Base.{false, some, [], ◌∷◌, ◌≡◌, ◌≢◌, refl}
use compose_cockpit.Base.Dict.{lookup}
use compose_cockpit.Base.Text.{has}
use compose_cockpit.Api.Streams.{project_events, service_logs, topic_of, topics_of}
use compose_cockpit.Api.Streams.Apart.{publish-apart}
use compose_cockpit.Sse.Broker.{Event, Subscriber, Broker, publish, generate_id}
use compose_cockpit.Sse.Broker.Delivery.{Sent, Delivered, publish-delivers}

abbrev reader : Subscriber
reader = record { id = "t-1"; buffer = []; topics = "p1" ∷ []; cancelled = false }

abbrev hub : Broker
hub = record { subscribers = ("t-1", reader) ∷ []; closed = false; counter = 1 }

abbrev notice : Event
notice = record { id = ""; type = "operation"; topic = ""; payload = "{}"; timestamp = 0 }

publish-delivers_example :
    (sent : Event) × (s' : Subscriber) × Sent (generate_id "t" 1).0 5 "p1" notice sent
    × (lookup "t-1" (publish "t" 5 "p1" notice hub).subscribers ≡ some s')
    × Delivered "p1" sent reader s'.buffer
publish-delivers_example = publish-delivers "t" 5 "p1" "t-1" notice hub reader refl refl

-- A user watches the project "p1" while another project logs.
abbrev watcher : Subscriber
watcher = record {
  id = "t-1";
  buffer = [];
  topics = topics_of (project_events "p1");
  cancelled = false;
}

abbrev watched : Broker
watched = record { subscribers = ("t-1", watcher) ∷ []; closed = false; counter = 1 }

other_stream : project_events "p1" ≢ service_logs "p2" "web"
other_stream e = cc

publish-apart_example :
    (s' : Subscriber) × (lookup "t-1"
        (publish "t" 5 (topic_of (service_logs "p2" "web")) notice watched).subscribers
      ≡ some s')
    × (s'.buffer ≡ [])
unfolding has
publish-apart_example =
    publish-apart "t" 5 (project_events "p1") (service_logs "p2" "web") "t-1" notice watched
      {s = watcher} refl refl refl refl refl other_stream
