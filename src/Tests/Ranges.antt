-- ===== src/Tests/Ranges.antt =====
-- Byte ranges: fs.go.
use justhttp.Base.{refl, arith, codes, index_byte}
use justhttp.Base.Int.{pos}
use justhttp.Bytesconv.Uint
use justhttp.ByteRange.{parse_byte_range}
use justhttp.ByteRange.Bounds.{Fits, parse_byte_range-Fits}

parse_byte_range-Fits_example : Fits 10 7 (pos 9)
unfolding parse_byte_range index_byte justhttp.Bytesconv.Uint.parse_uint
parse_byte_range-Fits_example =
    parse_byte_range-Fits (codes "bytes=-3") 10 {start = 7} {last = pos 9} (omega arith) refl
