-- ===== src/Body/Chunk.antt =====
-- What is read of one chunk that has been written.
use justhttp.Base.{
  suc, ◌+◌, ◌-◌, ◌^◌, ◌≤◌, ◌<◌, ◌≡◌, refl, sym, ap, false, some, [], ◌∷◌, ◌++◌, append_assoc, arith,
  ltb, ◌==◌, length, take, drop, length-append, Bytes, equal, ok, take-length-append,
}
use justhttp.Bytesconv.Tables.{hex2int}
use justhttp.Bytesconv.HexInt.{ReadEnd, eof, failed}
use justhttp.Bytesconv.HexInt.RoundTrip.{Ends, read_hex_int-write_hex_int}
use justhttp.Body.Growth.{le-round2}
use justhttp.Body.{
  read_byte, read_cr_lf, skip_spaces, read_size, parse_chunk_size, round2, append_body_fixed_size,
  read_chunk, write_chunk,
}

abbrev pub line_end_then : Bytes → Bytes
line_end_then b = b'\r' ∷ b'\n' ∷ b

Ends-line_end : (end : ReadEnd) (rest : Bytes) → Ends end (line_end_then rest)
unfolding hex2int
Ends-line_end eof rest = refl
Ends-line_end failed rest = refl

-- The size of a chunk is read back.
pub write_chunk-size :
    (b rest : Bytes) (end : ReadEnd)
    → length b < 16 ^ 15
    → (size : Bytes) × (write_chunk b ≡ some (size ++ line_end_then (b ++ line_end_then [])))
      × (parse_chunk_size end (size ++ line_end_then rest) ≡ ok (length b, rest))
unfolding write_chunk parse_chunk_size read_size skip_spaces read_cr_lf read_byte
write_chunk-size b rest end h =
    let (size, written, reads) =
      read_hex_int-write_hex_int (length b) end (line_end_then rest) h (Ends-line_end end rest) in
    (size, rw (write_chunk, written) refl, rw (parse_chunk_size, read_size, reads) refl)

take-two : (b rest : Bytes) → take (length b + 2) (b ++ line_end_then rest) ≡ b ++ line_end_then []
take-two [] rest = refl
take-two (c ∷ b) rest =
    let e : suc (length b) + 2 ≡ suc (length b + 2) = omega arith in
    rw e (ap (◌∷◌ c) (take-two b rest))

drop-two : (b rest : Bytes) → drop (length b + 2) (b ++ line_end_then rest) ≡ rest
drop-two [] rest = refl
drop-two (c ∷ b) rest =
    let e : suc (length b) + 2 ≡ suc (length b + 2) = omega arith in rw e (drop-two b rest)

drop-end : (b rest : Bytes) → drop (length b) (b ++ rest) ≡ rest
drop-end [] rest = refl
drop-end (c ∷ b) rest = drop-end b rest

-- A chunk is read up to the line end behind it, in a buffer that is not too long.
pub read_chunk-line_end :
    (end : ReadEnd) (dst b rest : Bytes)
    → length dst + (length b + 2) ≤ 2 ^ 31
    → read_chunk end dst (length b) (b ++ line_end_then rest) ≡ ok (dst ++ b, rest)
unfolding read_chunk append_body_fixed_size equal
read_chunk-line_end end dst b rest small =
    let room : ltb (round2 (length dst + (length b + 2))) (length dst + (length b + 2)) ≡ false =
      ground (arith, le-round2 (length dst + (length b + 2)) small) in
    let some_bytes : (length b + 2 == 0) ≡ false = ground arith in
    let enough : ltb (length (b ++ line_end_then rest)) (length b + 2) ≡ false =
      ground (arith, length-append b (line_end_then rest)) in
    let full = sym (append_assoc dst b (line_end_then [])) in
    let size : length ((dst ++ b) ++ line_end_then []) - 2 ≡ length (dst ++ b) =
      omega (arith, length-append (dst ++ b) (line_end_then [])) in
    rw (read_chunk, append_body_fixed_size, some_bytes, room, enough)
      (rw (take-two b rest, drop-two b rest)
        (rw full (
          rw size (
            rw
              (
                drop-end (dst ++ b) (line_end_then []),
                take-length-append (dst ++ b) (line_end_then []),
              )
              refl))))
