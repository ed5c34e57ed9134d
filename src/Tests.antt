-- ===== src/Tests.antt =====
-- The theorems at concrete inputs, and runs of the definitions.
mod Numbers
mod Quoting
mod Queries
mod Contexts
mod Limits
mod Ranges
mod Pools
mod Uris
mod Cookies
mod Hosts
mod Bodies
mod Headers
mod Pipes
mod Files
mod Clients
mod Messages
