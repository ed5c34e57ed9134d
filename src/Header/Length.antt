-- ===== src/Header/Length.antt =====
-- `parseContentLength` of header.go.
use justhttp.Base.{ℕ, ◌==◌, if◌then◌else◌, length, Bytes, Result, ok, err}
use justhttp.Bytesconv.Uint.{IntError, parse_uint_buf, parsed, refused}

pub data LengthError : Type 0 where
  bad_length : IntError → LengthError
  non_numeric_end : LengthError

unfoldable pub parse_content_length : Bytes → Result LengthError ℕ
unfolding parse_uint_buf
parse_content_length b = elim (parse_uint_buf b) [
  | refused e n ↦ err (bad_length e)
  | parsed v n ↦ (if n == length b then ok v else err non_numeric_end)
]
