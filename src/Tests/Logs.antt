-- ===== src/Tests/Logs.antt =====
-- Frames of a log.
use compose_cockpit.Base.{List, [], ◌∷◌, ◌≡◌, arith}
use compose_cockpit.Docker.Streamer.{Log, demux_docker_logs}
use compose_cockpit.Docker.Streamer.Frames.{
  Frame, stdout, stderr, line_feed, carriage_return, encode_all, never,
  demux_docker_logs-encode_all,
}

-- "hi" and a line break, an empty line, and "no" on the second stream.
abbrev frames : List Frame
frames =
    record { output = stdout; text = 104 ∷ 105 ∷ []; ends = carriage_return ∷ line_feed ∷ [] }
    ∷ record { output = stdout; text = []; ends = line_feed ∷ [] }
    ∷ record { output = stderr; text = 110 ∷ 111 ∷ []; ends = [] }
    ∷ []

abbrev logs : List Log
logs =
    record { service = "web"; stream = "stdout"; line = 104 ∷ 105 ∷ [] }
    ∷ record { service = "web"; stream = "stderr"; line = 110 ∷ 111 ∷ [] }
    ∷ []

demux_docker_logs-encode_all_example : demux_docker_logs never "web" (encode_all frames) ≡ logs
demux_docker_logs-encode_all_example = demux_docker_logs-encode_all "web" frames (
  ((λ e. ground arith), (λ e. ground arith)),
  omega arith,
  (tt, omega arith, (((λ e. ground arith), (λ e. ground arith)), omega arith, tt)),
)
