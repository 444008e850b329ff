-- ===== src/Sse/Stream.antt =====
-- internal/sse/handler.go: what ServeSSE writes for the events that it receives until the context or the
-- channel ends. `marshal` is encoding/json, which may fail.
use compose_cockpit.Base.{String, Option, none, some, List, [], ◌∷◌}
use compose_cockpit.Base.Text.{cat}
use compose_cockpit.Sse.Broker.{Event}

module _ (marshal : Event → Option String) where
  -- One event, or nothing for one that cannot be written as JSON.
  unfoldable pub event_text : Event → String
  event_text e = elim (marshal e) [
    | none ↦ ""
    | some json ↦ cat "id: " (
        cat e.id
          (cat "\n" (cat "event: " (cat e.type (cat "\n" (cat "data: " (cat json "\n\n")))))))
  ]

  -- The loop of ServeSSE.
  unfoldable pub serve_sse : List Event → String
  unfolding event_text
  serve_sse [] = ""
  serve_sse (e ∷ events) = cat (event_text e) (serve_sse events)
