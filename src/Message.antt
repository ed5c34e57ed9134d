-- ===== src/Message.antt =====
-- The messages of http.go.
pub mod Body
