-- ===== src/Docker/Streamer.antt =====
-- internal/docker/streamer.go: the streams of logs and of daemon events. What is published is the list
-- of the topics and events that Publish is called with. Bytes are numbers below 256, and the reader of
-- a log is the list of the bytes that it gives before it ends.
pub mod Frames
pub mod Stats
use compose_cockpit.Base.{
  ℕ, zero, suc, ◌+◌, ◌*◌, String, Bool, true, false, ◌||◌, Option, none, some, List, [], ◌∷◌, ◌++◌,
  same, leb, ltb, ◌==◌, if◌then◌else◌, length,
}
use compose_cockpit.Base.Dict.{Dict, lookup}
use compose_cockpit.Base.Results.{Result, ok, err}
use compose_cockpit.Base.Text.{cat}
use compose_cockpit.Docker.Client.{ContainerInfo}
use compose_cockpit.Sse.Broker.{Event}

-- io.ReadFull: the bytes that were asked for and those after them, or an error.
unfoldable pub read_full : ℕ → List ℕ → Option (List ℕ × List ℕ)
read_full zero bytes = some ([], bytes)
read_full (suc n) [] = none
read_full (suc n) (b ∷ bytes) = elim (read_full n bytes) [
  | none ↦ none
  | some (front, rest) ↦ some (b ∷ front, rest)
]

-- A line that demuxDockerLogs publishes.
pub record Log : Type 0 where
  pub service : String
  pub stream : String
  pub line : List ℕ

-- `strings.TrimRight(s, "\n\r")`
unfoldable pub trim_line : List ℕ → List ℕ
trim_line [] = []
trim_line (b ∷ bytes) = elim (trim_line bytes) [
  | [] ↦ if b == 10 || b == 13 then [] else b ∷ []
  | c ∷ cs ↦ b ∷ c ∷ cs
]

unfoldable pub stream_type : ℕ → String
stream_type b = if b == 2 then "stderr" else "stdout"

-- The size in a header. The bits of the shifted bytes are disjoint, so "|" adds them.
unfoldable pub size_of : List ℕ → ℕ
size_of (b0 ∷ b1 ∷ b2 ∷ b3 ∷ b4 ∷ b5 ∷ b6 ∷ b7 ∷ []) = b4 * 16777216 + b5 * 65536 + b6 * 256 + b7
size_of _ = 0

abbrev first_byte : List ℕ → ℕ
first_byte [] = 0
first_byte (b ∷ bytes) = b

abbrev pub max_size : ℕ
max_size = 1048576

-- `if line == "" { continue }`, and Publish of the line otherwise.
unfoldable pub published : String → ℕ → List ℕ → List Log → List Log
unfolding stream_type
published service b [] logs = logs
published service b (c ∷ line) logs =
    record { service = service; stream = stream_type b; line = c ∷ line } ∷ logs

module _ (ended : ℕ → Bool) (service : String) where
  -- The payload behind a header; the rest of the loop is an argument.
  frame : (List ℕ → List Log) → List ℕ → List ℕ → List Log
  unfolding read_full published trim_line size_of
  frame next header rest =
      if size_of header == 0 || ltb max_size (size_of header)
      then next rest
      else elim (read_full (size_of header) rest) [
        | none ↦ []
        | some (payload, rest') ↦
            published service (first_byte header) (trim_line payload) (next rest')
      ]

  -- The loop of demuxDockerLogs after `k` passes; whether the context has ended is asked in each pass.
  unfoldable pub demux : ℕ → ℕ → List ℕ → List Log
  unfolding frame read_full
  demux zero k bytes = []
  demux (suc fuel) k bytes = if ended k then [] else elim (read_full 8 bytes) [
    | none ↦ []
    | some (header, rest) ↦ frame (demux fuel (suc k)) header rest
  ]

  -- Each pass reads eight bytes, so there are fewer passes than bytes, and one that finds the end.
  unfoldable pub demux_docker_logs : List ℕ → List Log
  unfolding demux
  demux_docker_logs bytes = demux (suc (length bytes)) 0 bytes

abbrev pub topic_text : String → String → String
topic_text project_id rest = cat "project:" (cat project_id rest)

-- StreamProjectLogs, by the answer of ContainerList and the reader that ContainerLogs gives.
unfoldable pub stream_project_logs :
    (ℕ → Bool)
    → Result String (List ContainerInfo)
    → (String → Option (List ℕ))
    → String
    → String
    → List (String × Log)
unfolding demux_docker_logs
stream_project_logs ended (err e) logs project_id service = []
stream_project_logs ended (ok []) logs project_id service = []
stream_project_logs ended (ok (ctr ∷ containers)) logs project_id service = elim (logs ctr.id) [
  | none ↦ []
  | some bytes ↦
      to_topic (topic_text project_id (cat ":service:" (cat service ":logs")))
        (demux_docker_logs ended service bytes)
]
  where
    to_topic : String → List Log → List (String × Log)
    to_topic topic [] = []
    to_topic topic (l ∷ ls) = (topic, l) ∷ to_topic topic ls

pub record DockerEvent : Type 0 where
  pub type : String
  pub action : String
  pub actor_id : String
  pub attributes : Dict String

-- The attribute, or "" if there is none.
abbrev pub attribute : String → Dict String → String
attribute k attributes = elim (lookup k attributes) [ none ↦ "" | some v ↦ v ]

sse_event : String → String → Event
sse_event type payload = record {
  id = "";
  type = type;
  topic = "";
  payload = payload;
  timestamp = 0;
}

-- encoding/json, which gives the text of an event and of a map.
module _ (event_json : DockerEvent → String) (map_json : Dict String → String) where
  state_event : DockerEvent → Event
  unfolding sse_event
  state_event event = sse_event "container.state" (
      map_json (
        ("container_id", event.actor_id)
        ∷ ("service", attribute "com.composecockpit.service" event.attributes)
        ∷ ("action", event.action)
        ∷ ("status", event.action)
        ∷ []))

  project_events : String → DockerEvent → List (String × Event)
  unfolding state_event sse_event
  project_events project_id event =
      (topic_text project_id ":events", sse_event "docker.event" (event_json event))
      ∷ (if same event.type "container"
          then (topic_text project_id ":events", state_event event) ∷ []
          else [])

  -- publishDockerEvent
  unfoldable pub publish_docker_event : DockerEvent → List (String × Event)
  unfolding project_events sse_event
  publish_docker_event event =
      let project_id = attribute "com.composecockpit.project" event.attributes in
      (if same project_id "" then [] else project_events project_id event)
      ++ ("global:events", sse_event "docker.event" (event_json event)) ∷ []
