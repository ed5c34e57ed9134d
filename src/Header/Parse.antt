-- ===== src/Header/Parse.antt =====
-- What the parsers of the two headers share, header.go.
pub mod Block
pub mod Raw
use justhttp.Base.{
  ℕ, zero, suc, ◌+◌, ◌||◌, none, some, [], ◌∷◌, ◌++◌, if◌then◌else◌, length, take, drop, Bytes,
  equal, Result, ok, err, index_byte,
}
use justhttp.Base.Int.{ℤ, pos, negsuc}
use justhttp.Bytesconv.Uint.{IntError}
use justhttp.Header.Length.{LengthError}
use justhttp.Header.Scanner.{
  ScanError, need_more, HeaderScanner, Scanned, header, finished, failed, next,
}
use justhttp.Header.Value.{next_line}

-- The errors of `parse`; `unfinished` is a loop that has run out of its bound.
pub data HeaderError : Type 0 where
  scan : ScanError → HeaderError
  invalid_key no_method empty_request_uri no_whitespace after_status_code unfinished : HeaderError
  bad_content_length : LengthError → HeaderError
  bad_status_code : IntError → HeaderError

-- -1 is a body in chunks, -2 one that ends with the connection.
abbrev pub chunked : ℤ
chunked = negsuc 0

abbrev pub identity : ℤ
identity = negsuc 1

-- The first line that is not empty, and the rest.
unfoldable pub skip_empty_lines : ℕ → Bytes → Result HeaderError (Bytes × Bytes)
unfolding next_line
skip_empty_lines zero b = err unfinished
skip_empty_lines (suc rounds) b = elim (next_line b) [
  | none ↦ err (scan need_more)
  | some ([], rest) ↦ skip_empty_lines rounds rest
  | some (c ∷ line, rest) ↦ ok (c ∷ line, rest)
]

-- The loop of `readRawHeaders` behind the line that `seen` ends with.
unfoldable pub raw_loop : ℕ → Bytes → Bytes → Result HeaderError Bytes
raw_loop zero seen b = err unfinished
raw_loop (suc rounds) seen b = elim (index_byte b b'\n') [
  | none ↦ err (scan need_more)
  | some m ↦
      let line = take (m + 1) b in
      let more = raw_loop rounds (seen ++ line) (drop (m + 1) b) in
      if equal line (b'\r' ∷ b'\n' ∷ []) || equal line (b'\n' ∷ []) then ok (seen ++ line) else more
]

-- `readRawHeaders`, with what it appends to `dst`.
unfoldable pub read_raw_headers : Bytes → Result HeaderError Bytes
unfolding raw_loop equal
read_raw_headers buf = elim (index_byte buf b'\n') [
  | none ↦ err (scan need_more)
  | some n ↦
      let line = take (n + 1) buf in
      if equal line (b'\r' ∷ b'\n' ∷ []) || equal line (b'\n' ∷ [])
      then ok []
      else raw_loop (length buf) line (drop (n + 1) buf)
]

module _ {S : Type 0} (step : S → Bytes → Bytes → S) where
  -- The loop `for s.next()` of `parseHeaders`: the state behind the headers, and the scanner, or the
  -- state that the scanner's error has met.
  unfoldable pub scan_loop : ℕ → S → HeaderScanner → Result (S × HeaderError) (S × HeaderScanner)
  scan_loop zero st s = err (st, unfinished)
  scan_loop (suc rounds) st s = elim (next s) [
    | none ↦ err (st, unfinished)
    | some (failed e) ↦ err (st, scan e)
    | some (finished s') ↦ ok (st, s')
    | some (header s') ↦ scan_loop rounds (step st s'.key s'.value) s'
  ]
