-- ===== src/Docker/Streamer/Stats.antt =====
-- internal/docker/streamer.go: the statistics of containers. What is published is the list of the
-- topics and statistics that Publish is called with; `ended k` is `ctx.Err() != nil` in pass `k`.
use compose_cockpit.Base.{
  ℕ, suc, String, Bool, Option, none, some, List, [], ◌∷◌, same, ltb, ◌==◌, if◌then◌else◌, length,
}
use compose_cockpit.Base.Results.{Result, ok, err}
use compose_cockpit.Docker.Client.{ContainerInfo}
use compose_cockpit.Docker.Sdk.Stats.{Floats, RawStats, ContainerStats, parse_stats}
use compose_cockpit.Docker.Streamer.{topic_text, attribute, max_size}

-- A byte before the lines of the rest.
onto_line : ℕ → List (List ℕ) → List (List ℕ)
onto_line b [] = (b ∷ []) ∷ []
onto_line b (l ∷ ls) = (b ∷ l) ∷ ls

-- The lines that end at a line feed or at the end.
unfoldable pub raw_lines : List ℕ → List (List ℕ)
unfolding onto_line
raw_lines [] = []
raw_lines (b ∷ bytes) =
    let rest = raw_lines bytes in if b == 10 then [] ∷ rest else onto_line b rest

-- A line without the carriage return at its end.
unfoldable pub drop_return : List ℕ → List ℕ
drop_return [] = []
drop_return (b ∷ []) = if b == 13 then [] else b ∷ []
drop_return (b ∷ c ∷ bytes) = b ∷ drop_return (c ∷ bytes)

-- The tokens of bufio.Scanner: it ends at a line that does not fit into a buffer of a megabyte.
unfoldable pub tokens : List (List ℕ) → List (List ℕ)
unfolding drop_return
tokens [] = []
tokens (l ∷ ls) =
    let rest = drop_return l ∷ tokens ls in if ltb (length l) max_size then rest else []

module _ (floats : Floats) (unmarshal : List ℕ → Option RawStats) (ended : ℕ → Bool) where
  -- The statistics with the identifier and the name of the container.
  named_stats : ContainerInfo → ContainerStats floats → ContainerStats floats
  named_stats ctr stats = record stats { container_id = ctr.id; name = ctr.name }

  -- The loop of streamContainerStats after `k` lines.
  unfoldable pub stream_lines :
      String → ContainerInfo → ℕ → List (List ℕ) → List (String × ContainerStats floats)
  unfolding parse_stats named_stats
  stream_lines topic ctr k [] = []
  stream_lines topic ctr k (line ∷ lines) =
      let rest = stream_lines topic ctr (suc k) lines in
      if ended k then [] else elim (parse_stats floats unmarshal line) [
        | none ↦ rest
        | some stats ↦ (topic, named_stats ctr stats) ∷ rest
      ]

  -- streamContainerStats, by the reader that ContainerStats gives.
  unfoldable pub stream_container_stats :
      String → ContainerInfo → Option (List ℕ) → List (String × ContainerStats floats)
  unfolding stream_lines raw_lines tokens
  stream_container_stats project_id ctr none = []
  stream_container_stats project_id ctr (some bytes) =
      stream_lines (topic_text project_id ":stats") ctr 0 (tokens (raw_lines bytes))

  -- Publish for a container that has a project.
  published_stats :
      ContainerInfo
      → ContainerStats floats
      → List (String × ContainerStats floats)
      → List (String × ContainerStats floats)
  unfolding named_stats
  published_stats ctr stats rest =
      let project = attribute "com.composecockpit.project" ctr.labels in
      if same project "" then rest else (topic_text project ":stats", named_stats ctr stats) ∷ rest

  -- The statistics of one container: the call, the reading or the parsing may fail.
  unfoldable pub one_shot : Option (List ℕ) → Option (ContainerStats floats)
  unfolding parse_stats
  one_shot none = none
  one_shot (some bytes) = parse_stats floats unmarshal bytes

  -- The loop of collectAllStats after `k` containers; `read` gives the bytes of a container.
  unfoldable pub collect_from :
      (String → Option (List ℕ)) → ℕ → List ContainerInfo → List (String × ContainerStats floats)
  unfolding one_shot published_stats
  collect_from read k [] = []
  collect_from read k (ctr ∷ containers) =
      let rest = collect_from read (suc k) containers in
      if ended k then [] else elim (one_shot (read ctr.id)) [
        | none ↦ rest
        | some stats ↦ published_stats ctr stats rest
      ]

  -- collectAllStats, by the answer of ContainerList.
  unfoldable pub collect_all_stats :
      (String → Option (List ℕ))
      → Result String (List ContainerInfo)
      → List (String × ContainerStats floats)
  unfolding collect_from
  collect_all_stats read (err e) = []
  collect_all_stats read (ok containers) = collect_from read 0 containers
