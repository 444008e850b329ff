-- ===== src/Httputil/Response.antt =====
-- internal/httputil/response.go over a ResponseWriter of net/http. encoding/json is a parameter; a new
-- UUID and the time are arguments.
use compose_cockpit.Base.{ℕ, String, Option, none, some, List, [], ◌∷◌, ◌++◌, same, if◌then◌else◌}
use compose_cockpit.Base.Dict.{Dict, insert}
use compose_cockpit.Domain.Errors.{Code, Message, Details}
use compose_cockpit.Api.Reply.{Reply, success, failure}
use compose_cockpit.Api.AuditLists.{Paginated}

-- The header map, what was sent of it with the status, and the body by its parts.
pub record ResponseWriter : Type 0 where
  pub header : Dict String
  pub sent : Option (ℕ × Dict String)
  pub body : List String

-- A second call is ignored, and the map has no effect any more.
abbrev pub sent_or : Option (ℕ × Dict String) → ℕ × Dict String → ℕ × Dict String
sent_or none now = now
sent_or (some before) now = before

unfoldable pub write_header : ℕ → ResponseWriter → ResponseWriter
write_header status w = record w { sent = some (sent_or w.sent (status, w.header)) }

abbrev pub set_header : String → String → ResponseWriter → ResponseWriter
set_header key value w = record w { header = insert key value w.header }

-- What `Encode` writes; nothing if the value has no encoding, since its error is not looked at.
abbrev pub encoded : Option String → List String
encoded none = []
encoded (some text) = text ∷ []

pub record Meta : Type 0 where
  pub request_id : String
  pub timestamp : String

-- Response, PaginatedResponse and ErrorResponse.
pub data Document (A : Type 0) : Type 0 where
  response : A → Meta → Document A
  paginated : Paginated A → Meta → Document A
  error_response : Code → Message → Details → Meta → Document A

-- The part of a request that is read here; `request_id` is its header X-Request-ID.
pub record Request : Type 0 where
  pub method : String
  pub path : String
  pub remote_addr : String
  pub request_id : String

unfoldable pub get_request_id : String → Request → String
get_request_id uuid r = if same r.request_id "" then uuid else r.request_id

abbrev pub new_meta : String → String → Meta
new_meta id now = record { request_id = id; timestamp = now }

module _ {A : Type 0} (encode : Document A → Option String) (uuid now : String) where
  -- The steps that the three functions share.
  unfoldable pub write_document :
      ℕ → (Meta → Document A) → Request → ResponseWriter → ResponseWriter
  unfolding write_header get_request_id
  write_document status document r w =
      let begun = write_header status (set_header "Content-Type" "application/json" w) in
      record begun {
        body = begun.body ++ encoded (encode (document (new_meta (get_request_id uuid r) now)));
      }

  unfoldable pub write_json : ℕ → A → Request → ResponseWriter → ResponseWriter
  unfolding write_document
  write_json status x = write_document status (response x)

  unfoldable pub write_paginated : Paginated A → Request → ResponseWriter → ResponseWriter
  unfolding write_document
  write_paginated page = write_document 200 (paginated page)

  unfoldable pub write_error :
      ℕ → Code → Message → Details → Request → ResponseWriter → ResponseWriter
  unfolding write_document
  write_error status code message details =
      write_document status (error_response code message details)

  -- What a handler does with its answer.
  unfoldable pub write_reply : Reply A → Request → ResponseWriter → ResponseWriter
  unfolding write_json write_error
  write_reply (success status x) = write_json status x
  write_reply (failure status code message details) = write_error status code message details
