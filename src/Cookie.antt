-- ===== src/Cookie.antt =====
-- Cookies, cookie.go.
pub mod State
pub mod Scan
pub mod Reading
pub mod RoundTrip
pub mod Print
pub mod Parse
pub mod Ending
