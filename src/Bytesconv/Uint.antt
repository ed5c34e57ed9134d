-- ===== src/Bytesconv/Uint.antt =====
-- Decimal numbers: `AppendUint`, `parseUintBuf` and `ParseUint` of bytesconv.go, with 64-bit ints.
pub mod Parse
pub mod Print
use justhttp.Base.{
  ℕ, zero, suc, ◌+◌, ◌-◌, ◌*◌, ◌/◌, ◌%◌, ◌^◌, ◌||◌, [], ◌∷◌, ◌++◌, Option, none, some, Bytes,
  length, ltb, leb, ◌==◌, if◌then◌else◌, Result, ok, err,
}

-- The errors `errEmptyInt` and so on.
pub data IntError : Type 0 where
  empty_int unexpected_first_char unexpected_trailing_char too_long_int : IntError

-- What `parseUintBuf` returns: the value or an error, and the index where it stopped.
pub data UintScan : Type 0 where
  parsed : ℕ → ℕ → UintScan
  refused : IntError → ℕ → UintScan

-- The loop of `parseUintBuf` at index `i`. `sum` is the bit pattern of `vNew`; from 2 ^ 63 up it
-- stands for a negative int, which is below `v`.
pub scan_uint : ℕ → ℕ → Bytes → UintScan
scan_uint i v [] = parsed v i
scan_uint i v (c ∷ b) =
    let k = (c + 256 - b'0') % 256 in
    let sum = (10 * v + k) % 2 ^ 64 in
    if ltb 9 k
    then if i == 0 then refused unexpected_first_char i else parsed v i
    else if leb (2 ^ 63) sum || ltb sum v
    then refused too_long_int i
    else scan_uint (i + 1) sum b

unfoldable pub parse_uint_buf : Bytes → UintScan
unfolding scan_uint
parse_uint_buf [] = refused empty_int 0
parse_uint_buf (c ∷ b) = scan_uint 0 0 (c ∷ b)

-- `n != len(buf)` turns whatever was found into the error on a trailing char.
abbrev whole : ℕ → UintScan → Result IntError ℕ
whole size (parsed v n) = if n == size then ok v else err unexpected_trailing_char
whole size (refused e n) = if n == size then err e else err unexpected_trailing_char

unfoldable pub parse_uint : Bytes → Result IntError ℕ
unfolding parse_uint_buf
parse_uint buf = whole (length buf) (parse_uint_buf buf)

-- The digits of `n` in front of `buf[i:]`, written at the indices below `i`; `none` is an index
-- below 0.
pub fill : ℕ → ℕ → Bytes → Option Bytes
fill zero n buf = none
fill (suc i) n buf =
    let q = n / 10 in
    let rest = fill i q ((b'0' + (n - q * 10) % 256) % 256 ∷ buf) in
    if leb 10 n then rest else some ((b'0' + n % 256) % 256 ∷ buf)

-- `AppendUint` for `n >= 0`; `none` is a panic.
unfoldable pub append_uint : Bytes → ℕ → Option Bytes
unfolding fill
append_uint dst n = elim (fill 20 n []) [ none ↦ none | some buf ↦ some (dst ++ buf) ]
