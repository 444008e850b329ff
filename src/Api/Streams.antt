-- ===== src/Api/Streams.antt =====
-- internal/api/handlers/events_handler.go: the topics that each handler of a stream subscribes to, and
-- the stream of the daemon that it starts.
pub mod Apart
use compose_cockpit.Base.{String, Bool, List, [], ◌∷◌, if◌then◌else◌}
use compose_cockpit.Base.Text.{cat}

-- The handlers with what stands in the path.
pub data Watch : Type 0 where
  project_events project_stats : String → Watch
  service_logs : String → String → Watch
  global_events : Watch

abbrev pub project_topic : String → String → String
project_topic id rest = cat "project:" (cat id rest)

unfoldable pub topic_of : Watch → String
topic_of (project_events id) = project_topic id ":events"
topic_of (project_stats id) = project_topic id ":stats"
topic_of (service_logs id service) = project_topic id (cat ":service:" (cat service ":logs"))
topic_of global_events = "global:events"

unfoldable pub topics_of : Watch → List String
unfolding topic_of
topics_of w = topic_of w ∷ []

-- A goroutine of the streamer.
pub data Source : Type 0 where
  stats : String → Source
  logs : String → String → Source

-- What is started; `known` is whether GetProject finds the project.
unfoldable pub started : (String → Bool) → Watch → List Source
started known (project_stats id) = if known id then stats id ∷ [] else []
started known (service_logs id service) = logs id service ∷ []
started known _ = []
