-- ===== src/Sse.antt =====
-- internal/sse: the broker that passes events on to subscribers.
pub mod Broker
pub mod Stream
