-- ===== src/Tests/Numbers.antt =====
-- Decimal and hexadecimal numbers: bytesconv.go.
use justhttp.Base.{
  ◌-◌, ◌^◌, ◌≡◌, refl, ◌≢◌, ◌⊎◌, some, [], ◌∷◌, ◌++◌, arith, Bytes, codes, ok, err, index_byte,
}
use justhttp.Bytesconv.Ipv4.{too_large_part, parse_ipv4, append_ipv4}
use justhttp.Bytesconv.Ipv4.RoundTrip.{parse_ipv4-append_ipv4}
use justhttp.Bytesconv.HexInt.{eof, read_hex_int, too_large_hex_num}
use justhttp.Bytesconv.Tables.{hex2int}
use justhttp.Bytesconv.Uint.{parse_uint, append_uint, empty_int, unexpected_trailing_char}
use justhttp.Bytesconv.Uint.Parse.{value, parse_uint_errors, parse_uint_wraps}

parse_uint_run : parse_uint (codes "00120") ≡ ok 120
unfolding parse_uint
parse_uint_run = refl

parse_uint_trailing : parse_uint (codes "12a") ≡ err unexpected_trailing_char
unfolding parse_uint
parse_uint_trailing = refl

append_uint_run :
    append_uint (codes "x=") 9223372036854775807 ≡ some (codes "x=9223372036854775807")
unfolding append_uint
append_uint_run = refl

read_hex_int_too_large : read_hex_int eof (codes "0123456789abcdef") ≡ err too_large_hex_num
unfolding read_hex_int hex2int
read_hex_int_too_large = refl

parse_uint_errors_example :
    (codes "12a" ≡ []) × (unexpected_trailing_char ≡ empty_int)
    ⊎ (codes "12a" ≢ []) × (unexpected_trailing_char ≡ unexpected_trailing_char)
parse_uint_errors_example = parse_uint_errors (codes "12a") parse_uint_trailing

parse_uint_wraps_example :
    parse_uint (codes "2200000000000000000" ++ b'0' ∷ [])
    ≡ ok (value 0 (codes "2200000000000000000" ++ b'0' ∷ []) - 2 ^ 64)
parse_uint_wraps_example =
    parse_uint_wraps (codes "2200000000000000000") b'0' (cc) (omega arith) (omega arith)
      (omega arith) (omega arith) (omega arith)

append_uint_305 : append_uint [] 305 ≡ some (codes "305")
unfolding append_uint
append_uint_305 = refl

semicolon : hex2int b';' ≡ 16
unfolding hex2int
semicolon = refl

parse_ipv4-append_ipv4_example :
    (out : Bytes) × (append_ipv4 (codes "ip=") (192 ∷ 168 ∷ 0 ∷ 1 ∷ []) ≡ some (codes "ip=" ++ out))
    × (parse_ipv4 out ≡ ok (192 ∷ 168 ∷ 0 ∷ 1 ∷ []))
parse_ipv4-append_ipv4_example =
    parse_ipv4-append_ipv4 (codes "ip=") (192 ∷ 168 ∷ 0 ∷ 1 ∷ [])
      (omega arith, (omega arith, (omega arith, (omega arith, tt)))) refl

parse_ipv4_run : parse_ipv4 (codes "1.2.3.256") ≡ err too_large_part
unfolding parse_ipv4 index_byte
parse_ipv4_run = refl
