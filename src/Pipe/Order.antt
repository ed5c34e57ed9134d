-- ===== src/Pipe/Order.antt =====
-- What is read from a pipe is what has been written, in order.
use justhttp.Base.{
  ℕ, ◌+◌, ◌≡◌, refl, sym, ap, ◌∙◌, Bool, true, [], ◌++◌, append_assoc, arith, length, Bytes, Result,
  ok, err,
}
use justhttp.Pipe.{Half, new_half, PipeError, write, read}
use justhttp.Pipe.Round.{pending, Behind, write-Behind, IsRead, read_loop-Reads}

-- A step of a half of a pipe, with all that has been written to it and read from it.
pub record Traffic : Type 0 where
  pub half : Half
  pub sent : Bytes
  pub received : Bytes

unfoldable pub sends : PipeError → Bool → Traffic → Bytes → Traffic
unfolding write
sends wake stopped s p = elim (write wake stopped s.half p) [
  | ok h ↦ record s { half = h; sent = s.sent ++ p }
  | err e ↦ s
]

unfoldable pub receives : PipeError → Traffic → ℕ → Traffic
unfolding read
receives wake s n =
    let r = read wake n s.half in record s { half = r.half; received = s.received ++ r.out }

pub data Reach : Traffic → Type 0 where
  opened : Reach (record { half = new_half; sent = []; received = [] })
  sending :
      {s : Traffic} (wake : PipeError) (stopped : Bool) (p : Bytes)
      → Reach s
      → Reach (sends wake stopped s p)
  receiving : {s : Traffic} (wake : PipeError) (n : ℕ) → Reach s → Reach (receives wake s n)

-- In every state that calls of `Write` and `Read` lead to, with whatever deadlines and closing, what
-- has been read, and what is pending behind it, is what has been written, in order.
pub Reach-ordered : {s : Traffic} → Reach s → s.received ++ pending s.half ≡ s.sent
unfolding sends receives read
Reach-ordered opened = refl
Reach-ordered (sending {s} wake stopped p r) =
    sent-ordered s p (write wake stopped s.half p) (write-Behind wake stopped s.half p)
      (Reach-ordered r)
  where
    sent-ordered :
        (s : Traffic) (p : Bytes) (w : Result PipeError Half)
        → Behind s.half p w
        → s.received ++ pending s.half ≡ s.sent
        → (let t : Traffic = elim w [
          | ok h ↦ record s { half = h; sent = s.sent ++ p }
          | err e ↦ s
        ] in
            t.received ++ pending t.half ≡ t.sent)
    sent-ordered s p (ok h) b e =
        ap (λ t. s.received ++ t) b
        ∙ sym (append_assoc s.received (pending s.half) p)
        ∙ ap (λ t. t ++ p) e
    sent-ordered s p (err x) b e = e
Reach-ordered (receiving {s} wake n r) =
    let (v, fine) = read_loop-Reads (n + length s.half.ch + 1) wake true n s.half (omega arith) in
    append_assoc s.received (read wake n s.half).out (pending (read wake n s.half).half)
    ∙ ap (λ t. s.received ++ t) v.ordered
    ∙ Reach-ordered r

-- `Read` hands out the first of the pending bytes, as many as it is asked for or all that there are,
-- and keeps the rest; only where nothing is pending does it fail or go on waiting, as `wake` tells.
pub read-IsRead : (wake : PipeError) (n : ℕ) (h : Half) → IsRead wake n h (read wake n h)
unfolding read
read-IsRead wake n h = (read_loop-Reads (n + length h.ch + 1) wake true n h (omega arith)).0
