-- ===== src/Httputil/Middleware/Served.antt =====
-- What a request gets through the middleware of internal/httputil, whatever its handler does.
use compose_cockpit.Base.{
  ℕ, String, Option, some, [], ◌∷◌, ◌++◌, ◌≡◌, ◌≢◌, refl, same, if◌then◌else◌, arith, eq_iff,
}
use compose_cockpit.Domain.Errors.{Code, text, no_details}
use compose_cockpit.Base.Dict.{insert}
use compose_cockpit.Httputil.Response.{
  ResponseWriter, Request, Document, write_error, write_document, write_header, get_request_id,
  set_header, new_meta, error_response, encoded, sent_or,
}
use compose_cockpit.Httputil.Middleware.{
  Exchange, returned, panicked, Handler, http_request, panic_recovered, request_id_of, served,
  request_id_middleware, logging_middleware, recovery_middleware, recovered,
}

-- A request that has an identifier, or gets one, has it to the end.
request_id_of-set :
    (uuid spare : String) (r : Request)
    → uuid ≢ ""
    → (if same (request_id_of uuid r) "" then spare else request_id_of uuid r)
      ≡ request_id_of uuid r
request_id_of-set uuid spare r new = ground (arith, eq_iff uuid "")

module _ {A : Type 0} (encode : Document A → Option String) (spare now : String)
    (status_of bytes_of : ResponseWriter → ℕ) where
  -- A handler that panics ends neither the server nor the request: the client gets an internal error with
  -- the identifier that the header X-Request-ID was set to, and two lines are logged, of the panic and
  -- of the request. If the handler had sent a status, that status and its headers stand, and the error
  -- comes behind the part of the body that was written.
  pub served-panicked :
      (uuid p : String) (next : Handler) (r : Request) (x y : Exchange)
      → uuid ≢ ""
      → let id = request_id_of uuid r in
        let r' = record r { request_id = id } in
        next r' (record x { writer = set_header "X-Request-ID" id x.writer }) ≡ panicked p y
        → let header = insert "Content-Type" "application/json" y.writer.header in
          let w : ResponseWriter = record {
            header = header;
            sent = some (sent_or y.writer.sent (500, header));
            body =
                y.writer.body
                ++ encoded (
                    encode (
                      error_response Code.internal
                        (text "internal server error")
                        no_details
                        (new_meta id now)));
          } in
          served encode spare now status_of bytes_of uuid next r x
          ≡ returned (record {
            writer = w;
            log =
                (y.log ++ panic_recovered p r.path ∷ [])
                ++ http_request r' (status_of w) (bytes_of w) ∷ [];
          })
  unfolding served request_id_middleware logging_middleware recovery_middleware recovered
      write_error write_document write_header get_request_id
  served-panicked uuid p next r x y new e = rw (e, request_id_of-set uuid spare r new) refl
