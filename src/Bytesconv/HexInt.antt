-- ===== src/Bytesconv/HexInt.antt =====
-- `readHexInt` and `writeHexInt` of bytesconv.go, with 64-bit ints.
pub mod RoundTrip
use justhttp.Base.{
  ℕ, zero, suc, ◌+◌, ◌*◌, ◌/◌, ◌%◌, Option, none, some, [], ◌∷◌, ltb, leb, ◌==◌, if◌then◌else◌,
  Bytes, Result, ok, err,
}
use justhttp.Bytesconv.Tables.{hex2int, lowerhex}

-- `maxHexIntChars` of bytesconv_64.go.
abbrev pub max_hex_int_chars : ℕ
max_hex_int_chars = 15

-- What a reader's `ReadByte` returns behind its last byte: `io.EOF`, or another error.
pub data ReadEnd : Type 0 where
  eof failed : ReadEnd

pub data HexError : Type 0 where
  empty_hex_num too_large_hex_num : HexError
  read_error : ReadEnd → HexError

-- The loop of `readHexInt`, on the bytes that are left in the reader; a result is the number with
-- the bytes left behind it. The low four bits of `n << 4` are free for `k`.
unfoldable pub read_hex_digits : ReadEnd → ℕ → ℕ → Bytes → Result HexError (ℕ × Bytes)
read_hex_digits eof i n [] = if ltb 0 i then ok (n, []) else err (read_error eof)
read_hex_digits failed i n [] = err (read_error failed)
read_hex_digits end i n (c ∷ r) =
    let k = hex2int c in
    let next = read_hex_digits end (i + 1) (n * 16 + k) r in
    if k == 16
    then if i == 0 then err empty_hex_num else ok (n, c ∷ r)
    else if leb max_hex_int_chars i
    then err too_large_hex_num
    else next

unfoldable pub read_hex_int : ReadEnd → Bytes → Result HexError (ℕ × Bytes)
unfolding read_hex_digits
read_hex_int end r = read_hex_digits end 0 0 r

-- The loop of `writeHexInt`, which fills `buf` from its end; `none` is an index below 0.
pub fill_hex : ℕ → ℕ → Bytes → Option Bytes
fill_hex zero n buf = none
fill_hex (suc i) n buf =
    let buf' = lowerhex (n % 16) ∷ buf in
    let rest = fill_hex i (n / 16) buf' in if n / 16 == 0 then some buf' else rest

-- The bytes that `writeHexInt` passes to the writer for `n >= 0`.
unfoldable pub write_hex_int : ℕ → Option Bytes
unfolding fill_hex
write_hex_int n = fill_hex (max_hex_int_chars + 1) n []
