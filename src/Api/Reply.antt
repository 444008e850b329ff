-- ===== src/Api/Reply.antt =====
-- What a handler answers through WriteJSON and WriteError of internal/httputil/response.go.
use compose_cockpit.Base.{ℕ}
use compose_cockpit.Domain.Errors.{Code, Message, Details}

pub data Reply (A : Type 0) : Type 0 where
  success : ℕ → A → Reply A
  failure : ℕ → Code → Message → Details → Reply A
