-- ===== src/HostClient.antt =====
-- The connections of a client to one host, client.go: the pool that `acquireConn` takes them from
-- and `releaseConn` gives them back to, and the queue of those that wait for one.
pub mod Queue
pub mod Want
pub mod Pool
pub mod System
pub mod Retry
