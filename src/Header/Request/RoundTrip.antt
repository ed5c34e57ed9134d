-- ===== src/Header/Request/RoundTrip.antt =====
-- What is parsed of the header of a request that has been written.
use justhttp.Base.{
  ℕ, ◌+◌, ◌≡◌, refl, ap, ◌∙◌, false, not, none, [], ◌∷◌, ◌++◌, map, append_assoc, arith, length,
  length-append, Bytes, codes, equal, ok,
}
use justhttp.Base.Int.{ℤ, pos, negsuc}
use justhttp.Header.Scanner.{new_scanner}
use justhttp.Header.Parse.{identity, skip_empty_lines}
use justhttp.Header.Parse.Block.{lines_then, end_then, scan_loop-lines, le-length-lines}
use justhttp.Header.Parse.Raw.{read_raw_headers-lines, skip_empty_lines-line}
use justhttp.Header.Request.{
  RequestHeader, reset_skip_normalize, method_of, request_uri_of, protocol_of,
}
use justhttp.Header.Request.Lines.{pair_of, printed, append_headers-printed}
use justhttp.Header.Request.Fold.{
  append_slots, visible-append_slots, length_of, IsLength, reads, fold_headers-printed,
}
use justhttp.Header.Request.FirstLine.{first_line, Lacks-first_line, parse_method-first_line}
use justhttp.Header.Request.Parse.{
  parse_header, close_headers, parse_headers, parse_method, parse_request_header,
}
use justhttp.Header.Request.Print.{
  append_first_line, written_content_type, append_headers, append_request_header,
}
use justhttp.Header.Request.Writable.{IsWritable, printed-AreLines}

-- What is read: the fields that are written, and the rest as in a header that has been reset.
abbrev pub read_back : RequestHeader → RequestHeader → Bytes → RequestHeader
read_back old r raw =
    let start = reset_skip_normalize old in
    record start {
      method = method_of r;
      request_uri = request_uri_of r;
      proto = protocol_of r;
      user_agent = r.user_agent;
      host = r.host;
      content_type = written_content_type r;
      content_length = length_of r.content_length_bytes;
      content_length_bytes = r.content_length_bytes;
      h = append_slots start.h r.h.visible;
      connection_close = r.connection_close;
      raw_headers = raw;
    }

abbrev kept_bytes : Bytes → ℤ → Bytes
kept_bytes b n = elim n [ pos k ↦ b | negsuc k ↦ [] ]

kept_bytes-length_of : (b : Bytes) → IsLength b → kept_bytes b (length_of b) ≡ b
kept_bytes-length_of [] v = refl
kept_bytes-length_of (c ∷ b) (reads n ok_n) = rw ok_n refl

parse_headers-printed :
    (old r : RequestHeader) (raw body : Bytes)
    → IsWritable old.disable_normalizing r
    → (n : ℕ) × (parse_headers
          (record (reset_skip_normalize old) {
            method = method_of r;
            request_uri = request_uri_of r;
            proto = protocol_of r;
            raw_headers = raw;
          })
          (lines_then (printed r) (end_then body))
        ≡ ok (read_back old r raw, n))
      × (n + length body ≡ length (lines_then (printed r) (end_then body)))
unfolding parse_headers reset_skip_normalize close_headers
parse_headers-printed old r raw body v =
    let start : RequestHeader = record (reset_skip_normalize old) {
      method = method_of r;
      request_uri = request_uri_of r;
      proto = protocol_of r;
      raw_headers = raw;
      content_length = identity;
    } in
    let buf = lines_then (printed r) (end_then body) in
    let plain = old.disable_normalizing in
    let (s, looped, behind, sum) =
      scan_loop-lines parse_header (printed r) body (length buf + 1) (start, none)
        (new_scanner buf plain) (printed-AreLines plain r v)
        (omega (arith, le-length-lines (printed r) (end_then body))) in
    let folded =
      fold_headers-printed plain start r refl refl refl refl refl refl v.length v.fields in
    (
      s.h_len,
      rw (parse_headers, looped ∙ ap (λ p. ok (p, s)) folded)
          (ap (λ b. ok (record (read_back old r raw) { content_length_bytes = b }, s.h_len))
            (kept_bytes-length_of r.content_length_bytes v.length)),
      omega (arith, sum),
    )

append_first_line-then :
    (r : RequestHeader) (rest : Bytes)
    → append_first_line [] r ++ rest
      ≡ first_line (method_of r) (request_uri_of r) (protocol_of r) ++ b'\r' ∷ b'\n' ∷ rest
unfolding append_first_line
append_first_line-then r rest =
    let m = method_of r in
    let uri = request_uri_of r in
    let proto = protocol_of r in
    append_assoc (((m ++ b' ' ∷ []) ++ uri) ++ b' ' ∷ proto) (b'\r' ∷ b'\n' ∷ []) rest
    ∙ ap (λ t. t ++ b'\r' ∷ b'\n' ∷ rest)
        (append_assoc (m ++ b' ' ∷ []) uri (b' ' ∷ proto)
          ∙ append_assoc m (b' ' ∷ []) (uri ++ b' ' ∷ proto))

written :
    (r : RequestHeader) (body : Bytes)
    → r.cookies.visible ≡ []
    → append_request_header [] r ++ body
      ≡ first_line (method_of r) (request_uri_of r) (protocol_of r)
        ++ end_then (lines_then (printed r) (end_then body))
unfolding append_request_header
written r body no_cookies =
    append_assoc (append_headers (append_first_line [] r) r) (b'\r' ∷ b'\n' ∷ []) body
    ∙ append_headers-printed (append_first_line [] r) r (end_then body) no_cookies
    ∙ append_first_line-then r (lines_then (printed r) (end_then body))

-- Parsing what is written for a header of HTTP/1.1 without cookies, whose parts can stand in their
-- lines and whose other lines have no name with a field of its own, in front of any body, into a
-- header that has been reset, gives its method, target, protocol, host, agent, length and other
-- headers in order, the content type that is written, and whether the connection closes; it reads
-- exactly what is written.
pub parse_request_header-append_request_header :
    (old r : RequestHeader) (body : Bytes)
    → IsWritable old.disable_normalizing r
    → (raw : Bytes) × (parse_request_header
          (reset_skip_normalize old)
          (append_request_header [] r ++ body)
        ≡ ok (read_back old r raw, length (append_request_header [] r)))
      × (map pair_of (read_back old r raw).h.visible ≡ map pair_of r.h.visible)
unfolding parse_request_header reset_skip_normalize equal
parse_request_header-append_request_header old r body v =
    let line = first_line (method_of r) (request_uri_of r) (protocol_of r) in
    let rest = lines_then (printed r) (end_then body) in
    let buf = append_request_header [] r ++ body in
    let full = written r body v.no_cookies in
    let skipped : skip_empty_lines (length buf + 1) buf ≡ ok (line, rest) =
      ap (skip_empty_lines (length buf + 1)) full
      ∙ skip_empty_lines-line line rest (length buf)
          (Lacks-first_line (method_of r) (request_uri_of r) (protocol_of r) v.first)
          (omega (
            arith,
            v.first.method_some,
            length-append (method_of r) (b' ' ∷ (request_uri_of r ++ b' ' ∷ protocol_of r)),
          )) in
    let current : not (equal (protocol_of r) (codes "HTTP/1.1")) ≡ false =
      ap (λ p. not (equal p (codes "HTTP/1.1"))) v.current in
    let start : RequestHeader = record (reset_skip_normalize old) {
      method = method_of r;
      request_uri = request_uri_of r;
      proto = protocol_of r;
    } in
    let first : parse_method (reset_skip_normalize old) line ≡ ok start =
      parse_method-first_line (reset_skip_normalize old) (method_of r) (request_uri_of r)
        (protocol_of r) v.first
      ∙ ap (λ b. ok (record start { no_http11 = b })) current in
    let (raw, copied) =
      read_raw_headers-lines (printed r) body (printed-AreLines old.disable_normalizing r v) in
    let (n, parsed, sum) = parse_headers-printed old r raw body v in
    (
      raw,
      rw (parse_request_header, skipped)
          (rw (first, copied)
            (rw parsed (
              ap (λ k. ok (read_back old r raw, k))
                (omega (
                  arith,
                  sum,
                  ap length full,
                  length-append line (end_then rest),
                  length-append (append_request_header [] r) body,
                ))))),
      visible-append_slots (reset_skip_normalize old).h r.h.visible,
    )
