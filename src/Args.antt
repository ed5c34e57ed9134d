-- ===== src/Args.antt =====
-- Query arguments, args.go. A slice of args has a visible part and a spare part, the slots between
-- its length and its capacity, whose old contents are written over when they are used again.
-- Strings and byte slices are both byte lists, so `Set` and `SetBytesKV` are one operation.
pub mod Slots
pub mod Scanner
pub mod Query
pub mod Store
pub mod Typed
