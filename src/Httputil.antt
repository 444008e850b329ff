-- ===== src/Httputil.antt =====
-- internal/httputil: how answers are written, and the middleware around every handler.
pub mod Response
pub mod Middleware
