-- ===== src/Header.antt =====
-- The headers of requests and responses, header.go.
pub mod Key
pub mod Value
pub mod Length
pub mod Line
pub mod Scanner
pub mod Parse
pub mod Status
pub mod Request
pub mod Response
