-- ===== src/Fs.antt =====
-- The handler of static files, fs.go: the paths that it serves, the cache of open files, the
-- readers of a file, and the handler of a request.
pub mod Path
pub mod Cache
pub mod Reader
pub mod Handler
