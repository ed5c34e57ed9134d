-- ===== src/Tests/Bodies.antt =====
-- Bodies in chunks: http.go.
use justhttp.Base.{
  ◌+◌, ◌^◌, ◌≡◌, refl, some, [], ◌∷◌, ◌++◌, arith, if◌then◌else◌, length, Bytes, codes, ok, err,
}
use justhttp.Bytesconv.HexInt.{eof}
use justhttp.Bytesconv.Tables.{lowerhex}
use justhttp.Body.{round2, body_too_large, exceeds, read_body_chunked, write_body_chunked}
use justhttp.Body.RoundTrip.{joined, read_body_chunked-write_body_chunked}

-- Above 2 to the 31 the sizes wrap around.
round2_run : (round2 5 ≡ 8) × (round2 (2 ^ 31) ≡ 2 ^ 31) × (round2 (2 ^ 31 + 1) ≡ 0)
unfolding round2
round2_run = (refl, refl, refl)

write_body_chunked_run :
    write_body_chunked (codes "abc" ∷ codes "d" ∷ [])
    ≡ some (
        b'3' ∷ b'\r' ∷ b'\n' ∷ b'a' ∷ b'b' ∷ b'c' ∷ b'\r' ∷ b'\n' ∷ b'1' ∷ b'\r' ∷ b'\n' ∷ b'd'
        ∷ b'\r' ∷ b'\n' ∷ b'0' ∷ b'\r' ∷ b'\n' ∷ b'\r' ∷ b'\n' ∷ [])
unfolding write_body_chunked lowerhex
write_body_chunked_run = refl

read_body_chunked-write_body_chunked_example :
    (out : Bytes) × (write_body_chunked (codes "abc" ∷ codes "d" ∷ []) ≡ some out)
    × (read_body_chunked eof 3 (out ++ codes "GET") ≡ (
        if exceeds 3 (length (joined (codes "abc" ∷ codes "d" ∷ [])))
        then err body_too_large
        else ok (joined (codes "abc" ∷ codes "d" ∷ []), codes "GET")))
read_body_chunked-write_body_chunked_example =
    read_body_chunked-write_body_chunked (codes "abc" ∷ codes "d" ∷ []) eof 3 (codes "GET")
      ((omega arith, omega arith), ((omega arith, omega arith), tt)) (omega arith)
