-- ===== src/Domain/Errors.antt =====
-- internal/domain/errors.go and pkg/apierr/codes.go: application errors and their codes.
-- A message is kept as the format that was used with its arguments, not as the printed text.
use Prim.Native.Nat.{ℕ}
use Prim.Native.String.{String}

-- The codes of pkg/apierr that the code raises.
pub data Code : Type 0 where
  unauthorized forbidden token_invalid validation : Code
  project_not_found service_not_found user_not_found operation_not_found : Code
  port_conflict network_conflict volume_conflict project_locked operation_in_progress : Code
  image_pull_failed container_failed docker_unavailable internal user_exists : Code

pub data Message : Type 0 where
  text : String → Message
  unmanaged_network : String → Message
  foreign_volume : String → Message
  build_failed : String → String → Message
  pull_failed : String → String → Message
  port_in_use : String → String → String → Message
  port_occupied : String → String → Message
  locked_by : String → Message
  project_locked_by : String → String → Message
  unsupported_type : String → Message

-- apierr.PortConflictDetails; the port is an int, kept as its 64 bits, and BlockingProcess, which the code
-- never sets, is left out.
pub record PortConflictDetails : Type 0 where
  pub port : ℕ
  pub protocol : String
  pub blocking_container : String

pub data Details : Type 0 where
  no_details : Details
  port_details : PortConflictDetails → Details
  holder_details : String → Details

pub record AppError : Type 0 where
  pub code : Code
  pub message : Message
  pub http_status : ℕ
  pub details : Details

abbrev pub new_app_error : Code → Message → ℕ → AppError
new_app_error c m s = record { code = c; message = m; http_status = s; details = no_details }

-- A Go `error` that reaches a handler: an `*AppError`, or any other error by its text.
pub data GoError : Type 0 where
  app : AppError → GoError
  other : Message → GoError
