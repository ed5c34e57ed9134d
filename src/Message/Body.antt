-- ===== src/Message/Body.antt =====
-- The body of a `Response`, http.go: the buffer, the raw body and the stream. The headers that the
-- same methods set are those of Header/Response.
pub mod Views
use justhttp.Base.{
  ℕ, zero, suc, ◌+◌, ◌-◌, ◌*◌, ◌/◌, ◌%◌, ◌^◌, ◌≤◌, ◌<◌, ◌≡◌, refl, sym, ap, ◌∙◌, ◌≢◌, ◌↔◌, ◌⊎◌, inl,
  inr, Bool, true, false, not, ◌&&◌, ◌||◌, Option, none, some, List, [], ◌∷◌, ◌++◌, map, append-nil,
  append_assoc, arith, ltb, leb, ◌==◌, if◌then◌else◌, within, ltb→lt, lt→ltb, leb→le, ==_iff,
  Bool-cases, Option-cases, length, get_elem?, take, drop, length-append, take-append-drop,
  length-take, length-drop, All, All-append, Bytes, codes, IsByte, Lacks, equal, equal_iff,
  equal_self, equal_symm, Result, ok, err, ◌>>=◌, index_byte, index_byte-none, is_none,
  index_byte-append, take-length-append, drop-length-append,
}

-- A stream, known by a number, with the bytes that it has or the message of its error.
pub record BodyStream : Type 0 where
  pub number : ℕ
  pub answer : Result Bytes Bytes

-- `closed` are the streams that were closed, the last one first.
pub record ResponseBody : Type 0 where
  pub body : Option Bytes
  pub body_raw : Option Bytes
  pub body_stream : Option BodyStream
  pub keep_body_buffer : Bool
  pub closed : List ℕ

-- What `copyZeroAlloc` and `SetString` leave in the buffer.
abbrev pub text_of : Result Bytes Bytes → Bytes
text_of (ok b) = b
text_of (err message) = message

-- A buffer, or the nil one.
abbrev pub or_empty : Option Bytes → Bytes
or_empty none = []
or_empty (some b) = b

-- `closeBodyStream`.
unfoldable pub close_body_stream : ResponseBody → ResponseBody
close_body_stream r = elim r.body_stream [
  | none ↦ r
  | some s ↦ record r { body_stream = none; closed = s.number ∷ r.closed }
]

-- `bodyBuffer`, with the bytes that are put into it; the pool gives an empty buffer.
unfoldable pub with_body_buffer : ResponseBody → (Bytes → Bytes) → ResponseBody
with_body_buffer r f = record r { body = some (f (or_empty r.body)); body_raw = none }

-- `SetBody`.
unfoldable pub set_body : ResponseBody → Bytes → ResponseBody
unfolding close_body_stream with_body_buffer
set_body r b = with_body_buffer (close_body_stream r) (λ old. b)

-- `AppendBody`.
unfoldable pub append_body : ResponseBody → Bytes → ResponseBody
unfolding close_body_stream with_body_buffer
append_body r p = with_body_buffer (close_body_stream r) (λ old. old ++ p)

-- `ResetBody`; a buffer that goes back to the pool is gone.
unfoldable pub reset_body : ResponseBody → ResponseBody
unfolding close_body_stream
reset_body r =
    let c = close_body_stream (record r { body_raw = none }) in
    record c {
      body = elim r.body [ none ↦ none | some b ↦ if r.keep_body_buffer then some [] else none ];
    }

-- `SetBodyRaw`, of a body that is not nil.
unfoldable pub set_body_raw : ResponseBody → Bytes → ResponseBody
unfolding reset_body
set_body_raw r b = record (reset_body r) { body_raw = some b }

-- `SetBodyStream`.
unfoldable pub set_body_stream : ResponseBody → BodyStream → ResponseBody
unfolding reset_body
set_body_stream r s = record (reset_body r) { body_stream = some s }

-- The bytes of a stream, if there is one, go to the buffer.
unfoldable pub drain : ResponseBody → ResponseBody
unfolding close_body_stream with_body_buffer
drain r = elim r.body_stream [
  | none ↦ r
  | some s ↦ close_body_stream (with_body_buffer r (λ old. text_of s.answer))
]

-- `bodyBytes`.
unfoldable pub body_bytes : ResponseBody → Bytes
body_bytes r = elim r.body_raw [ some b ↦ b | none ↦ or_empty r.body ]

-- `Body`.
unfoldable pub body_of : ResponseBody → ResponseBody × Bytes
unfolding drain body_bytes
body_of r = (drain r, body_bytes (drain r))

-- `SwapBody`, with the body that it returns.
unfoldable pub swap_body : ResponseBody → Bytes → ResponseBody × Bytes
unfolding drain with_body_buffer
swap_body r b =
    let buffered = drain (with_body_buffer r (λ old. old)) in
    (record buffered { body = some b; body_raw = none }, or_empty buffered.body)

-- `CopyTo`, the header apart.
unfoldable pub copy_to : ResponseBody → ResponseBody → ResponseBody
unfolding reset_body with_body_buffer
copy_to r dst =
    let d = reset_body dst in
    elim r.body_raw [
      | some b ↦ record d {
        body_raw = some b;
        body = elim d.body [ none ↦ none | some old ↦ some [] ];
      }
      | none ↦ elim r.body [
        | some b ↦ with_body_buffer d (λ old. b)
        | none ↦ record d { body = elim d.body [ none ↦ none | some old ↦ some [] ] }
      ]
    ]
