-- ===== src/Uri.antt =====
-- URIs, uri.go and uri_unix.go.
pub mod Path
pub mod State
pub mod Parse
pub mod Print
pub mod Laws
