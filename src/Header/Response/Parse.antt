-- ===== src/Header/Response/Parse.antt =====
-- `ResponseHeader.parse` of header.go. What it leaves of the header where it fails is not told.
use justhttp.Base.{
  ℕ, zero, suc, ◌+◌, ◌-◌, Bool, true, false, not, ◌&&◌, none, some, [], ◌∷◌, ltb, ◌==◌,
  if◌then◌else◌, length, get_elem?, take, drop, Bytes, codes, equal, Result, ok, err, ◌>>=◌,
  index_byte,
}
use Prim.Native.Nat.{bit_or}
use justhttp.Base.Int.{ℤ, pos, negsuc}
use justhttp.Args.Store.{set_arg, append_arg}
use justhttp.Bytesconv.Uint.{parse_uint_buf, parsed, refused}
use justhttp.Cookie.Parse.{case_insensitive_compare}
use justhttp.Header.Length.{parse_content_length}
use justhttp.Header.Scanner.{new_scanner}
use justhttp.Header.Value.{has_header_value}
use justhttp.Header.Parse.{
  HeaderError, no_whitespace, after_status_code, bad_status_code, unfinished, chunked, identity,
  skip_empty_lines, scan_loop,
}
use justhttp.Header.Request.Fields.{peek_bytes}
use justhttp.Header.Response.{ResponseHeader, must_skip_content_length}
use justhttp.Header.Response.Fields.{add_cookie, connection_upgrade}

-- The status code behind the protocol.
unfoldable pub parse_status : ResponseHeader → Bytes → Result HeaderError ResponseHeader
unfolding parse_uint_buf
parse_status r b = elim (parse_uint_buf b) [
  | refused e n ↦ err (bad_status_code e)
  | parsed code n ↦ (elim (get_elem? b n) [
    | none ↦ ok (record r { status_code = pos code })
    | some c ↦
        (if c == b' ' then ok (record r { status_code = pos code }) else err after_status_code)
  ])
]

-- `parseFirstLine` behind the empty lines.
unfoldable pub parse_first_line : ResponseHeader → Bytes → Result HeaderError ResponseHeader
unfolding parse_status equal
parse_first_line r line = elim (index_byte line b' ') [
  | none ↦ err no_whitespace
  | some n ↦
      parse_status (record r { no_http11 = not (equal (take n line) (codes "HTTP/1.1")) })
        (drop (n + 1) line)
]

-- The case "Content-Length", which a body in chunks overrides; what is no length ends with the
-- connection.
unfoldable pub parse_length : ResponseHeader → Bytes → ℤ → ResponseHeader
unfolding parse_content_length
parse_length r value (negsuc zero) = r
parse_length r value n = elim (parse_content_length value) [
  | ok v ↦ record r { content_length = pos v; content_length_bytes = value }
  | err e ↦ record r { content_length = identity }
]

unfoldable pub append_field : ResponseHeader → Bytes → Bytes → ResponseHeader
unfolding append_arg
append_field r key value = record r { h = append_arg r.h key value false }

-- The body of the loop of `parseHeaders`. A header without a name is dropped.
unfoldable pub parse_header : ResponseHeader → Bytes → Bytes → ResponseHeader
unfolding case_insensitive_compare parse_length append_field add_cookie set_arg equal
parse_header r [] value = r
parse_header r (k ∷ key) value =
    let first = bit_or k 32 in
    let is = λ (name : Bytes). case_insensitive_compare (k ∷ key) name in
    if first == b'c' && is (codes "Content-Type")
    then record r { content_type = value }
    else if first == b'c' && is (codes "Content-Length")
    then parse_length r value r.content_length
    else if first == b'c' && is (codes "Connection")
    then if equal value (codes "close")
      then record r { connection_close = true }
      else append_field (record r { connection_close = false }) (k ∷ key) value
    else if first == b's' && is (codes "Server")
    then record r { server = value }
    else if first == b's' && is (codes "Set-Cookie")
    then add_cookie r value
    else if first == b't' && is (codes "Transfer-Encoding")
    then if ltb 0 (length value) && not (equal value (codes "identity"))
      then record r {
        content_length = chunked;
        h = set_arg r.h (codes "Transfer-Encoding") (codes "chunked") false;
      }
      else r
    else append_field r (k ∷ key) value

abbrev is_identity : ℤ → Bool
is_identity (negsuc (suc zero)) = true
is_identity _ = false

-- A response whose length is not told ends with the connection.
unfoldable pub close_unsized : ResponseHeader → Bool → ResponseHeader
unfolding must_skip_content_length set_arg
close_unsized r upgrade =
    if is_identity r.content_length && not upgrade && not (must_skip_content_length r)
    then record r {
      h = set_arg r.h (codes "Transfer-Encoding") (codes "identity") false;
      connection_close = true;
    }
    else r

-- `parseHeaders` behind its loop.
unfoldable pub close_headers : ResponseHeader → Result HeaderError ResponseHeader
unfolding connection_upgrade close_unsized has_header_value peek_bytes
close_headers r =
    let bytes : Bytes = elim r.content_length [ pos n ↦ r.content_length_bytes | negsuc n ↦ [] ] in
    let sized = record r { content_length_bytes = bytes } in
    elim (connection_upgrade sized) [
      | none ↦ err unfinished
      | some upgrade ↦
          let closed = close_unsized sized upgrade in
          if closed.no_http11 && not closed.connection_close
          then (elim (has_header_value (peek_bytes closed.h (codes "Connection"))
              (codes "keep-alive")) [
                | none ↦ err unfinished
                | some keep ↦ ok (record closed { connection_close = not keep })
              ])
          else ok closed
    ]

-- `parseHeaders`, with the length `len(buf) - len(s.b)`.
unfoldable pub parse_headers : ResponseHeader → Bytes → Result HeaderError (ResponseHeader × ℕ)
unfolding parse_header close_headers scan_loop
parse_headers r buf =
    let start = record r { content_length = identity } in
    elim (scan_loop parse_header (length buf + 1) start (new_scanner buf r.disable_normalizing)) [
      | err (r', e) ↦ err e
      | ok (r', s) ↦ close_headers r' >>= λ closed. ok (closed, length buf - length s.b)
    ]

-- `ResponseHeader.parse`, with the length of what it has read.
unfoldable pub parse_response_header :
    ResponseHeader → Bytes → Result HeaderError (ResponseHeader × ℕ)
unfolding skip_empty_lines parse_first_line parse_headers
parse_response_header r buf = do
  (line, rest) ← skip_empty_lines (length buf + 1) buf
  first ← parse_first_line r line
  (r', n) ← parse_headers first rest
  ok (r', (length buf - length rest) + n)
