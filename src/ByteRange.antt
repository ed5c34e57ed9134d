-- ===== src/ByteRange.antt =====
-- `ParseByteRange` of fs.go, for a content length that is not negative.
pub mod Bounds
use justhttp.Base.{
  ℕ, zero, suc, ◌-◌, Option, none, some, [], ◌∷◌, ltb, leb, ◌==◌, if◌then◌else◌, take, drop, Bytes,
  codes, Result, ok, err, index_byte, ◌>>=◌,
}
use justhttp.Base.Int.{ℤ, pos, sub_ℕ}
use justhttp.Bytesconv.Uint.{IntError, parse_uint}

pub data RangeError : Type 0 where
  unsupported_units missing_byte_range missing_end start_too_large start_after_end : RangeError
  bad_position : IntError → RangeError

-- `bytes.HasPrefix`, with what stands behind the prefix.
unfoldable pub strip_prefix : Bytes → Bytes → Option Bytes
strip_prefix [] b = some b
strip_prefix (p ∷ ps) [] = none
strip_prefix (p ∷ ps) (c ∷ b) = if p == c then strip_prefix ps b else none

unfoldable pub position : Bytes → Result RangeError ℕ
position b = elim (parse_uint b) [ ok v ↦ ok v | err e ↦ err (bad_position e) ]

-- Behind the '-'.
unfoldable pub range_end : ℕ → Bytes → ℕ → Result RangeError (ℕ × ℤ)
unfolding position
range_end start [] content_length = ok (start, sub_ℕ content_length 1)
range_end start (c ∷ b) content_length = do
  end ← position (c ∷ b)
  let last = if leb content_length end then content_length - 1 else end
  if ltb last start then err start_after_end else ok (start, pos last)

-- The two sides of the '-', which stands at the index that is given.
unfoldable pub range_bounds : Bytes → Option ℕ → ℕ → Result RangeError (ℕ × ℤ)
unfolding range_end position
range_bounds b none content_length = err missing_end
range_bounds b (some zero) content_length = do
  v ← position (drop 1 b)
  let start : ℕ = if ltb content_length v then 0 else content_length - v
  ok (start, sub_ℕ content_length 1)
range_bounds b (some (suc i)) content_length = do
  start ← position (take (suc i) b)
  if leb content_length start
      then err start_too_large
      else range_end start (drop (suc (suc i)) b) content_length

-- Behind the units.
unfoldable pub range_spec : Bytes → ℕ → Result RangeError (ℕ × ℤ)
unfolding range_bounds
range_spec [] content_length = err missing_byte_range
range_spec (c ∷ b) content_length =
    if c == b'=' then range_bounds b (index_byte b b'-') content_length else err missing_byte_range

unfoldable pub parse_byte_range : Bytes → ℕ → Result RangeError (ℕ × ℤ)
unfolding range_spec strip_prefix
parse_byte_range byte_range content_length = elim (strip_prefix (codes "bytes") byte_range) [
  | none ↦ err unsupported_units
  | some b ↦ range_spec b content_length
]
