-- ===== src/Body.antt =====
-- Bodies of requests and responses, http.go: `readBody` with a body of a given length or in chunks,
-- and the writing of chunks. A reader is the bytes that are left in it and its end; how many of
-- them a `Read` hands out makes no difference here.
pub mod Growth
pub mod Chunk
pub mod RoundTrip
pub mod Limits
use justhttp.Base.{
  ℕ, zero, suc, ◌+◌, ◌-◌, ◌*◌, ◌/◌, ◌%◌, ◌^◌, ◌≤◌, ◌<◌, ◌≡◌, refl, sym, ap, ◌∙◌, ◌≢◌, ◌↔◌, ◌⊎◌, inl,
  inr, Bool, true, false, not, ◌&&◌, ◌||◌, Option, none, some, List, [], ◌∷◌, ◌++◌, map, append-nil,
  append_assoc, arith, ltb, leb, ◌==◌, if◌then◌else◌, within, ltb→lt, lt→ltb, leb→le, ==_iff,
  Bool-cases, Option-cases, length, get_elem?, take, drop, length-append, take-append-drop,
  length-take, length-drop, All, All-append, Bytes, codes, IsByte, Lacks, equal, equal_iff,
  equal_self, equal_symm, Result, ok, err, ◌>>=◌, index_byte, index_byte-none, is_none,
  index_byte-append, take-length-append, drop-length-append,
}
use Prim.Native.Nat.{bit_or}
use justhttp.Base.Int.{ℤ, pos, negsuc}
use justhttp.Bytesconv.HexInt.{ReadEnd, eof, failed, HexError, read_hex_int, write_hex_int}
use justhttp.Uri.Path.{◌then_if_done◌}

-- `panicked` is a panic, `unfinished` a loop that has run out of its bound.
pub data BodyError : Type 0 where
  hex : HexError → BodyError
  ended : ReadEnd → BodyError
  broken_chunk body_too_large panicked unfinished : BodyError

unfoldable pub read_byte : ℕ → Bytes → Result BodyError Bytes
read_byte exp [] = err broken_chunk
read_byte exp (c ∷ b) = if c == exp then ok b else err broken_chunk

-- `readCrLf`.
unfoldable pub read_cr_lf : Bytes → Result BodyError Bytes
unfolding read_byte
read_cr_lf b = read_byte b'\r' b >>= read_byte b'\n'

-- The loop of `parseChunkSize` that skips spaces.
unfoldable pub skip_spaces : Bytes → Result BodyError Bytes
skip_spaces [] = err broken_chunk
skip_spaces (c ∷ b) = let more = skip_spaces b in if c == b' ' then more else ok (c ∷ b)

unfoldable pub read_size : ReadEnd → Bytes → Result BodyError (ℕ × Bytes)
unfolding read_hex_int
read_size end b = elim (read_hex_int end b) [ ok r ↦ ok r | err e ↦ err (hex e) ]

-- `parseChunkSize`.
unfoldable pub parse_chunk_size : ReadEnd → Bytes → Result BodyError (ℕ × Bytes)
unfolding read_size skip_spaces read_cr_lf
parse_chunk_size end b = do
  (n, sized) ← read_size end b
  skipped ← skip_spaces sized
  rest ← read_cr_lf skipped
  ok (n, rest)

-- `x |= x >> s`, where `d` is 2 to the `s`.
unfoldable pub smear : ℕ → ℕ → ℕ
smear d x = bit_or x (x / d)

-- `round2`, in 32 bits: above 2 to the 31 it wraps around, to 0 or to a smaller power of two.
unfoldable pub round2 : ℕ → ℕ
unfolding smear
round2 zero = 0
round2 (suc n) =
    let x = n % 2 ^ 32 in
    (smear (2 ^ 16) (smear (2 ^ 8) (smear (2 ^ 4) (smear (2 ^ 2) (smear 2 x)))) + 1) % 2 ^ 32

-- `appendBodyFixedSize`, of a buffer with no capacity or one that an earlier call has made, and so
-- of at most 2 to the 31: where the new length is above that, `dst[:dstLen]` is out of range and
-- panics, and else `round2` gives enough. At the end of the reader `io.EOF` becomes `io.ErrUnexpectedEOF`.
unfoldable pub append_body_fixed_size :
    ReadEnd → Bytes → ℕ → Bytes → Result BodyError (Bytes × Bytes)
unfolding round2
append_body_fixed_size end dst n b =
    if n == 0
    then ok (dst, b)
    else if ltb (round2 (length dst + n)) (length dst + n)
    then err panicked
    else if ltb (length b) n
    then err (ended end)
    else ok (dst ++ take n b, drop n b)

-- `maxBodySize > 0 && n > maxBodySize`.
unfoldable pub exceeds : ℕ → ℕ → Bool
exceeds max n = ltb 0 max && ltb max n

-- What is read for a chunk of `n` bytes, without the line end behind them.
unfoldable pub read_chunk : ReadEnd → Bytes → ℕ → Bytes → Result BodyError (Bytes × Bytes)
unfolding append_body_fixed_size equal
read_chunk end dst n b = do
  (full, rest) ← append_body_fixed_size end dst (n + 2) b
  let size : ℕ = length full - 2
  if equal (drop size full) (b'\r' ∷ b'\n' ∷ [])
      then ok (take size full, rest)
      else err broken_chunk

-- The loop of `readBodyChunked`.
unfoldable pub read_chunks : ℕ → ReadEnd → ℕ → Bytes → Bytes → Result BodyError (Bytes × Bytes)
unfolding parse_chunk_size exceeds read_chunk
read_chunks zero end max dst b = err unfinished
read_chunks (suc rounds) end max dst b = do
  (n, behind) ← parse_chunk_size end b
  sized ← if exceeds max (length dst + n) then err body_too_large else ok behind
  (dst', rest) ← read_chunk end dst n sized
  let more = read_chunks rounds end max dst' rest
  if n == 0 then ok (dst', rest) else more

-- `readBodyChunked` with an empty buffer; a round takes at least a byte.
unfoldable pub read_body_chunked : ReadEnd → ℕ → Bytes → Result BodyError (Bytes × Bytes)
unfolding read_chunks
read_body_chunked end max b = read_chunks (length b + 1) end max [] b

-- `writeChunk`: what it passes to the writer.
unfoldable pub write_chunk : Bytes → Option Bytes
unfolding write_hex_int
write_chunk b = write_hex_int (length b) then_if_done λ size.
    some (size ++ b'\r' ∷ b'\n' ∷ (b ++ b'\r' ∷ b'\n' ∷ []))

-- `writeBodyChunked`, of what the calls of `r.Read` hand out, up to `io.EOF`.
unfoldable pub write_body_chunked : List Bytes → Option Bytes
unfolding write_chunk
write_body_chunked [] = write_chunk []
write_body_chunked (p ∷ pieces) = write_chunk p then_if_done λ chunk.
    write_body_chunked pieces then_if_done λ more. some (chunk ++ more)

-- What `readBodyIdentity` returns at the end of the reader.
unfoldable pub end_identity : ReadEnd → Bytes → Result BodyError (Bytes × Bytes)
end_identity eof b = ok (b, [])
end_identity failed b = err (ended failed)

-- Whether the buffer of `readBodyIdentity`, of `size` bytes, can take `total` bytes, or as many as
-- the limit lets through. A new one that is no longer than the bytes read panics.
unfoldable pub grows : ℕ → ℕ → ℕ → ℕ → Bool
unfolding round2 exceeds
grows zero max size total = false
grows (suc rounds) max size total =
    let doubled = round2 (2 * size) in
    let next = if exceeds max doubled then max + 1 else doubled in
    let rest = grows rounds max next total in
    if ltb total size || exceeds max size then true else ltb size next && rest

-- `readBodyIdentity`, with an empty buffer: the limit is tested while the bytes come, before the end
-- is met. The buffer doubles in each round, so that 64 are more than enough.
unfoldable pub read_body_identity : ReadEnd → ℕ → Bytes → Result BodyError (Bytes × Bytes)
unfolding exceeds end_identity grows
read_body_identity end max b =
    if not (grows 64 max 1024 (length b))
    then err panicked
    else if exceeds max (length b)
    then err body_too_large
    else end_identity end b

-- `readBody`.
unfoldable pub read_body : ReadEnd → ℤ → ℕ → Bytes → Result BodyError (Bytes × Bytes)
unfolding exceeds append_body_fixed_size read_body_chunked read_body_identity
read_body end (pos n) max b =
    if exceeds max n then err body_too_large else append_body_fixed_size end [] n b
read_body end (negsuc zero) max b = read_body_chunked end max b
read_body end (negsuc (suc n)) max b = read_body_identity end max b
