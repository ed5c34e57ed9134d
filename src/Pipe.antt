-- ===== src/Pipe.antt =====
-- The in-memory connections of fasthttputil/pipeconns.go. A pipe has a half for each direction:
-- the channel of the buffers that are written, and what is left of the buffer that is being read.
pub mod Round
pub mod Order
use justhttp.Base.{
  ℕ, zero, suc, ◌+◌, ◌-◌, Bool, true, false, Option, none, some, List, [], ◌∷◌, ◌++◌, ltb, ◌==◌,
  if◌then◌else◌, length, take, drop, Bytes, Result, ok, err, ◌>>=◌,
}

pub record Half : Type 0 where
  pub ch : List Bytes
  pub bb : Bytes

abbrev pub new_half : Half
new_half = record { ch = []; bb = [] }

-- `waits` is a call that goes on waiting, `unfinished` a loop that has run out of its bound.
pub data PipeError : Type 0 where
  would_block eof timed_out connection_closed waits unfinished : PipeError

-- `Write`; the channel has room for 4 buffers. `wake` is what wakes up a call that finds no room:
-- the deadline, the closing of the pipe, or nothing yet.
unfoldable pub write : PipeError → Bool → Half → Bytes → Result PipeError Half
write wake stopped h p =
    if stopped
    then err connection_closed
    else if ltb (length h.ch) 4
    then ok (record h { ch = h.ch ++ p ∷ [] })
    else err wake

-- `readNextByteBuffer`, where `wake` wakes up a call that finds no buffer.
unfoldable pub read_next : PipeError → Bool → Half → Result PipeError Half
read_next wake may_block h = elim h.ch [
  | p ∷ rest ↦ ok (record { ch = rest; bb = p })
  | [] ↦ (if may_block then err wake else err would_block)
]

-- The `copy` of `read`, for `n` bytes at most.
unfoldable pub copy_out : ℕ → Half → Bytes × Half
copy_out n h = (take n h.bb, record h { bb = drop n h.bb })

-- `pipeConn.read`.
unfoldable pub read_one : PipeError → Bool → ℕ → Half → Result PipeError (Bytes × Half)
unfolding read_next copy_out
read_one wake may_block n h = elim h.bb [
  | [] ↦ read_next wake may_block h >>= λ t. ok (copy_out n t)
  | c ∷ bb ↦ ok (copy_out n h)
]

-- What `Read` returns, and leaves.
pub record PipeRead : Type 0 where
  pub half : Half
  pub out : Bytes
  pub failure : Option PipeError

-- The error at which the loop ends: one buffer is enough.
unfoldable pub failure_of : Bool → PipeError → Option PipeError
failure_of false would_block = none
failure_of may_block e = some e

-- The loop of `Read`.
unfoldable pub read_loop : ℕ → PipeError → Bool → ℕ → Half → PipeRead
unfolding read_one failure_of
read_loop zero wake may_block n h = record { half = h; out = []; failure = some unfinished }
read_loop (suc rounds) wake may_block n h =
    let done : PipeRead = record { half = h; out = []; failure = none } in
    let read : PipeRead = elim (read_one wake may_block n h) [
      | err e ↦ record { half = h; out = []; failure = failure_of may_block e }
      | ok (out, h') ↦
          let more = read_loop rounds wake false (n - length out) h' in
          record more { out = out ++ more.out }
    ] in
    if n == 0 then done else read

-- `Read` into a buffer of `n` bytes: a round takes a byte or a buffer.
unfoldable pub read : PipeError → ℕ → Half → PipeRead
unfolding read_loop
read wake n h = read_loop (n + length h.ch + 1) wake true n h
