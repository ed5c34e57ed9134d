-- ===== src/Header/Request/Parse.antt =====
-- `RequestHeader.parse` of header.go. What it leaves of the header where it fails is not told:
-- `Read` resets the header then.
use justhttp.Base.{
  ℕ, zero, suc, ◌+◌, ◌-◌, true, false, not, ◌&&◌, ◌||◌, Option, none, some, [], ◌∷◌, ◌==◌,
  if◌then◌else◌, length, take, drop, Bytes, codes, equal, Result, ok, err, ◌>>=◌, index_byte,
  is_none,
}
use Prim.Native.Nat.{bit_or}
use justhttp.Base.Int.{ℤ, pos, negsuc}
use justhttp.Base.Search.{last_index_byte}
use justhttp.Args.Store.{set_arg, append_arg}
use justhttp.Cookie.Parse.{case_insensitive_compare}
use justhttp.Header.Length.{parse_content_length}
use justhttp.Header.Scanner.{new_scanner}
use justhttp.Header.Value.{has_header_value}
use justhttp.Header.Parse.{
  HeaderError, invalid_key, no_method, empty_request_uri, unfinished, bad_content_length, chunked,
  identity, skip_empty_lines, read_raw_headers, scan_loop,
}
use justhttp.Header.Request.{RequestHeader}
use justhttp.Header.Request.Fields.{peek_bytes}

-- The protocol and the request URI, by the last ' ' behind the method.
unfoldable pub parse_target : RequestHeader → Bytes → Option ℕ → Result HeaderError RequestHeader
unfolding equal
parse_target r b none =
    ok (record r { no_http11 = true; proto = codes "HTTP/1.0"; request_uri = b })
parse_target r b (some zero) = err empty_request_uri
parse_target r b (some (suc n)) =
    let proto = drop (n + 2) b in
    let target = record r { request_uri = take (suc n) b } in
    if equal proto (codes "HTTP/1.1")
    then ok (record target { proto = codes "HTTP/1.1" })
    else ok (record target { no_http11 = true; proto = proto })

-- The first line.
unfoldable pub parse_method : RequestHeader → Bytes → Result HeaderError RequestHeader
unfolding parse_target last_index_byte
parse_method r line = elim (index_byte line b' ') [
  | none ↦ err no_method
  | some zero ↦ err no_method
  | some (suc n) ↦
      let b = drop (n + 2) line in
      parse_target (record r { method = take (suc n) line }) b (last_index_byte b b' ')
]

-- The header, and the error of `parseHeaders` that is kept for the end.
abbrev pub Parsing : Type 0
Parsing = RequestHeader × Option HeaderError

-- The case "Content-Length", which a body in chunks overrides.
unfoldable pub parse_length : Parsing → Bytes → ℤ → Parsing
unfolding parse_content_length
parse_length (r, e) value (negsuc zero) = (r, e)
parse_length (r, e) value n = elim (parse_content_length value) [
  | ok v ↦ (record r { content_length = pos v; content_length_bytes = value }, e)
  | err bad ↦ (
    record r { content_length = identity },
    elim e [ none ↦ some (bad_content_length bad) | some old ↦ some old ],
  )
]

unfoldable pub append_field : RequestHeader → Bytes → Bytes → RequestHeader
unfolding append_arg
append_field r key value = record r { h = append_arg r.h key value false }

-- A header whose name has no space in it. The switch is on the name's first char.
unfoldable pub parse_field : Parsing → Bytes → Bytes → Parsing
unfolding case_insensitive_compare parse_length append_field set_arg equal
parse_field (r, e) [] value = (append_field r [] value, e)
parse_field (r, e) (k ∷ key) value =
    let first = bit_or k 32 in
    let is = λ (name : Bytes). case_insensitive_compare (k ∷ key) name in
    if first == b'h' && is (codes "Host")
    then (record r { host = value }, e)
    else if first == b'u' && is (codes "User-Agent")
    then (record r { user_agent = value }, e)
    else if first == b'c' && is (codes "Content-Type")
    then (record r { content_type = value }, e)
    else if first == b'c' && is (codes "Content-Length")
    then parse_length (r, e) value r.content_length
    else if first == b'c' && is (codes "Connection")
    then if equal value (codes "close")
      then (record r { connection_close = true }, e)
      else (append_field (record r { connection_close = false }) (k ∷ key) value, e)
    else if first == b't' && is (codes "Transfer-Encoding")
    then if equal value (codes "identity") then (r, e) else (
      record r {
        content_length = chunked;
        h = set_arg r.h (codes "Transfer-Encoding") (codes "chunked") false;
      },
      e,
    )
    else (append_field r (k ∷ key) value, e)

-- The body of the loop of `parseHeaders`.
unfoldable pub parse_header : Parsing → Bytes → Bytes → Parsing
unfolding parse_field
parse_header p key value =
    if not (is_none (index_byte key b' ')) || not (is_none (index_byte key b'\t'))
    then (p.0, some invalid_key)
    else parse_field p key value

-- `parseHeaders` behind its loop.
unfoldable pub close_headers : RequestHeader → Result HeaderError RequestHeader
unfolding has_header_value peek_bytes
close_headers r =
    let bytes : Bytes = elim r.content_length [ pos n ↦ r.content_length_bytes | negsuc n ↦ [] ] in
    let sized = record r { content_length_bytes = bytes } in
    if r.no_http11 && not r.connection_close
    then (elim (has_header_value (peek_bytes r.h (codes "Connection")) (codes "keep-alive")) [
      | none ↦ err unfinished
      | some keep ↦ ok (record sized { connection_close = not keep })
    ])
    else ok sized

-- The error of the loop of `parseHeaders`: an earlier one comes before the scanner's.
unfoldable pub first_error : Option HeaderError → HeaderError → HeaderError
first_error (some old) e = old
first_error none e = e

-- `parseHeaders`, with the length of the headers.
unfoldable pub parse_headers : RequestHeader → Bytes → Result HeaderError (RequestHeader × ℕ)
unfolding parse_header close_headers scan_loop first_error
parse_headers r buf =
    let start : Parsing = (record r { content_length = identity }, none) in
    elim (scan_loop parse_header (length buf + 1) start (new_scanner buf r.disable_normalizing)) [
      | err (p, e) ↦ err (first_error p.1 e)
      | ok (p, s) ↦ elim p.1 [
        | some e ↦ err e
        | none ↦ close_headers p.0 >>= λ r'. ok (r', s.h_len)
      ]
    ]

-- `RequestHeader.parse`, with the length of what it has read.
unfoldable pub parse_request_header : RequestHeader → Bytes → Result HeaderError (RequestHeader × ℕ)
unfolding skip_empty_lines parse_method read_raw_headers parse_headers
parse_request_header r buf = do
  (line, rest) ← skip_empty_lines (length buf + 1) buf
  first ← parse_method r line
  raw ← read_raw_headers rest
  (r', n) ← parse_headers (record first { raw_headers = raw }) rest
  ok (r', (length buf - length rest) + n)
