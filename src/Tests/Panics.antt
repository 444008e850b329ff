-- ===== src/Tests/Panics.antt =====
-- A handler that has written its answer and panics.
use compose_cockpit.Base.{ℕ, String, Option, none, some, List, [], ◌∷◌, ◌≡◌, refl, length}
use compose_cockpit.Base.Text.{cat}
use compose_cockpit.Httputil.Response.{
  ResponseWriter, Request, Document, response, paginated, error_response, write_json,
  write_document, write_header, get_request_id,
}
use compose_cockpit.Httputil.Middleware.{
  Exchange, returned, panicked, Handler, http_request, panic_recovered, served,
}
use compose_cockpit.Httputil.Middleware.Served.{served-panicked}

abbrev plain_text : Document String → Option String
plain_text (response x meta) = some x
plain_text (paginated page meta) = none
plain_text (error_response code message _ meta) = some (cat "error in " meta.request_id)

abbrev code_of : Option (ℕ × List (String × String)) → ℕ
code_of none = 0
code_of (some (status, header)) = status

abbrev status : ResponseWriter → ℕ
status w = code_of w.sent

abbrev parts : ResponseWriter → ℕ
parts w = length w.body

-- It answers "hello" and then panics.
abbrev careless : Handler
careless r x =
    panicked "out of range"
      (record x { writer = write_json plain_text "spare" "now" 200 "hello" r x.writer })

abbrev asked : Request
asked = record {
  method = "GET";
  path = "/api/v1/projects";
  remote_addr = "10.0.0.1";
  request_id = "";
}

abbrev named : Request
named = record asked { request_id = "id1" }

abbrev fresh : Exchange
fresh = record { writer = record { header = []; sent = none; body = [] }; log = [] }

abbrev header : List (String × String)
header = ("X-Request-ID", "id1") ∷ ("Content-Type", "application/json") ∷ []

abbrev begun : Exchange
begun = record {
  writer = record { header = header; sent = some (200, header); body = "hello" ∷ [] };
  log = [];
}

begins :
    careless named (record fresh {
      writer = record { header = ("X-Request-ID", "id1") ∷ []; sent = none; body = [] };
    })
    ≡ panicked "out of range" begun
unfolding write_json write_document write_header get_request_id
begins = refl

-- Under the status 200 the body has two documents.
served-panicked_example :
    served plain_text "spare" "now" status parts "id1" careless asked fresh
    ≡ returned (record {
      writer = record {
        header = header;
        sent = some (200, header);
        body = "hello" ∷ cat "error in " "id1" ∷ [];
      };
      log = panic_recovered "out of range" "/api/v1/projects" ∷ http_request named 200 2 ∷ [];
    })
served-panicked_example =
    served-panicked plain_text "spare" "now" status parts "id1" "out of range" careless asked fresh
      begun (λ z. cc) begins
