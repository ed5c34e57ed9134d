-- ===== src/Client.antt =====
-- The client of all hosts and the loops around `HostClient.Do`, client.go.
pub mod Deadline
pub mod Hosts
pub mod Redirects
pub mod Dial
