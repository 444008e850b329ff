-- ===== src/Httputil/Middleware.antt =====
-- internal/httputil/middleware.go, with the three in the order of internal/api/router.go. The wrapped
-- writer of chi, which tells the status and the bytes, is a parameter.
pub mod Served
use compose_cockpit.Base.{ℕ, String, Option, List, [], ◌∷◌, ◌++◌, same, if◌then◌else◌}
use compose_cockpit.Domain.Errors.{Code, text, no_details}
use compose_cockpit.Httputil.Response.{ResponseWriter, Request, Document, write_error, set_header}

-- What the logger is given.
pub data LogLine : Type 0 where
  http_request : (request : Request) (status bytes : ℕ) → LogLine
  panic_recovered : (panic path : String) → LogLine

-- The writer of a request, with what was logged.
pub record Exchange : Type 0 where
  pub writer : ResponseWriter
  pub log : List LogLine

-- A handler returns or panics.
pub data Outcome : Type 0 where
  returned : Exchange → Outcome
  panicked : String → Exchange → Outcome

abbrev pub Handler : Type 0
Handler = Request → Exchange → Outcome

-- What runs after a handler that returns; a panic passes.
abbrev pub after : (Exchange → Exchange) → Outcome → Outcome
after f (returned x) = returned (f x)
after f (panicked p x) = panicked p x

abbrev pub logged : LogLine → Exchange → Exchange
logged line x = record x { log = x.log ++ line ∷ [] }

abbrev pub request_id_of : String → Request → String
request_id_of uuid r = if same r.request_id "" then uuid else r.request_id

unfoldable pub request_id_middleware : String → Handler → Handler
request_id_middleware uuid next r x =
    let id = request_id_of uuid r in
    next (record r { request_id = id })
      (record x { writer = set_header "X-Request-ID" id x.writer })

module _ (status_of bytes_of : ResponseWriter → ℕ) where
  unfoldable pub logging_middleware : Handler → Handler
  logging_middleware next r x =
      after (λ y. logged (http_request r (status_of y.writer) (bytes_of y.writer)) y) (next r x)

module _ {A : Type 0} (encode : Document A → Option String) (spare now : String) where
  unfoldable pub recovered : Request → Outcome → Outcome
  unfolding write_error
  recovered r (returned x) = returned x
  recovered r (panicked p x) =
      let y = logged (panic_recovered p r.path) x in
      returned (record y {
        writer =
            write_error encode spare now 500 Code.internal (text "internal server error") no_details
              r y.writer;
      })

  unfoldable pub recovery_middleware : Handler → Handler
  unfolding recovered
  recovery_middleware next r x = recovered r (next r x)

  -- The three around a handler; `spare` is the UUID that GetRequestID makes where there is none.
  unfoldable pub served : (status_of bytes_of : ResponseWriter → ℕ) → String → Handler → Handler
  unfolding request_id_middleware logging_middleware recovery_middleware
  served status_of bytes_of uuid next =
      request_id_middleware uuid (logging_middleware status_of bytes_of (recovery_middleware next))
