-- ===== src/Tests/Headers.antt =====
-- Headers of requests and responses: header.go.
use justhttp.Base.{
  ◌+◌, ◌≡◌, refl, ◌↔◌, true, false, none, List, [], ◌∷◌, ◌++◌, map, arith, length, Bytes, codes, ok,
  index_byte, index_byte-none,
}
use justhttp.Base.Int.{pos}
use justhttp.Args.Slots.{ArgsKv}
use justhttp.Cookie.Scan.{trim_right}
use justhttp.Cookie.Parse.{case_insensitive_compare}
use justhttp.Uri.State.{lowercase_bytes}
use justhttp.Header.Key.{normalize_header_key}
use justhttp.Header.Key.Laws.{normalize_header_key_iff}
use justhttp.Header.Value.Laws.{blank}
use justhttp.Header.Scanner.{HeaderScanner, spaces, starts_blank, new_scanner}
use justhttp.Header.Scanner.Lines.{IsLine, at}
use justhttp.Header.Parse.{scan_loop}
use justhttp.Header.Parse.Block.{lines_then, end_then, fold_headers, scan_loop-lines}
use justhttp.Header.Length.{parse_content_length}
use justhttp.Header.Request.{
  RequestHeader, reset_skip_normalize, method_of, request_uri_of, protocol_of,
}
use justhttp.Header.Request.Lines.{IsValue, pair_of}
use justhttp.Header.Request.Fold.{reads}
use justhttp.Header.Request.Parse.{parse_request_header}
use justhttp.Header.Request.Print.{append_request_header}
use justhttp.Header.Request.Fields.{del, peek}
use justhttp.Header.Request.Fields.Deleted.{peek-del}
use justhttp.Header.Request.Writable.{IsWritable}
use justhttp.Header.Request.RoundTrip.{read_back, parse_request_header-append_request_header}
use justhttp.Header.Response.{ResponseHeader}
use justhttp.Header.Response.Fields
use justhttp.Header.Response.Fields.Stored.{peek-set}

abbrev accept : ArgsKv
accept = record { key = codes "Accept"; value = codes "text/html"; no_value = false }

abbrev post : RequestHeader
post = record {
  disable_normalizing = false;
  no_http11 = false;
  connection_close = true;
  cookies_collected = false;
  content_length = pos 12;
  content_length_bytes = codes "12";
  method = codes "POST";
  request_uri = codes "/a b";
  proto = [];
  host = codes "x.org";
  content_type = [];
  user_agent = codes "me";
  h = record { visible = accept ∷ []; spare = [] };
  cookies = record { visible = []; spare = [] };
  raw_headers = [];
}

checked-IsValue :
    (b : Bytes) → index_byte b b'\n' ≡ none → spaces b ≡ 0 → trim_right b ≡ b → IsValue b
checked-IsValue b no_line starts ends = record {
  line = index_byte-none b b'\n' no_line;
  starts = starts;
  ends = ends;
}

checked-IsLine :
    (key value : Bytes)
    → index_byte key b':' ≡ none
    → index_byte key b'\n' ≡ none
    → starts_blank key ≡ false
    → IsValue value
    → IsLine key value
checked-IsLine key value no_colon no_line no_blank v = record {
  key_colon = index_byte-none key b':' no_colon;
  key_line = index_byte-none key b'\n' no_line;
  key_starts = no_blank;
  value_line = v.line;
  value_starts = v.starts;
  value_ends = v.ends;
}

accept-IsLine : IsLine (codes "Accept") (codes "text/html")
unfolding index_byte spaces trim_right
accept-IsLine =
    checked-IsLine (codes "Accept") (codes "text/html") refl refl refl
      (checked-IsValue (codes "text/html") refl refl refl)

post-IsWritable : IsWritable false post
unfolding index_byte spaces trim_right method_of request_uri_of protocol_of parse_content_length
    normalize_header_key case_insensitive_compare
post-IsWritable = record {
  first = record {
    method_some = omega arith;
    method_space = index_byte-none (codes "POST") b' ' refl;
    method_line = index_byte-none (codes "POST") b'\n' refl;
    uri_some = omega arith;
    uri_line = index_byte-none (codes "/a b") b'\n' refl;
    proto_space = index_byte-none (codes "HTTP/1.1") b' ' refl;
    proto_line = index_byte-none (codes "HTTP/1.1") b'\n' refl;
  };
  current = refl;
  agent = checked-IsValue (codes "me") refl refl refl;
  host = checked-IsValue (codes "x.org") refl refl refl;
  type = checked-IsValue [] refl refl refl;
  size = checked-IsValue (codes "12") refl refl refl;
  length = reads 12 refl;
  lines = (accept-IsLine, tt);
  fields = (
    record {
      normal = refl;
      no_space = refl;
      no_tab = refl;
      common = (refl, (refl, (refl, (refl, (refl, (refl, tt))))));
    },
    tt,
  );
  no_cookies = refl;
}

parse_request_header-append_request_header_example :
    (raw : Bytes) × (parse_request_header
        (reset_skip_normalize post)
        (append_request_header [] post ++ codes "a=1")
      ≡ ok (read_back post post raw, length (append_request_header [] post)))
    × (map pair_of (read_back post post raw).h.visible ≡ map pair_of post.h.visible)
parse_request_header-append_request_header_example =
    parse_request_header-append_request_header post post (codes "a=1") post-IsWritable

-- The names and values that the loop meets, in order.
abbrev note_header : List (Bytes × Bytes) → Bytes → Bytes → List (Bytes × Bytes)
note_header seen key value = seen ++ (key, value) ∷ []

abbrev one_line : List (Bytes × Bytes)
one_line = (codes "Accept", codes "text/html") ∷ []

scan_loop-lines_example :
    (end_scanner : HeaderScanner) × (scan_loop note_header 9 []
        (at (new_scanner [] false) (lines_then one_line (end_then (codes "body"))))
      ≡ ok (fold_headers note_header false [] one_line, end_scanner))
    × (end_scanner.b ≡ codes "body")
    × (end_scanner.h_len + length (codes "body")
        ≡ 0 + length (lines_then one_line (end_then (codes "body"))))
scan_loop-lines_example =
    scan_loop-lines note_header one_line (codes "body") 9 [] (new_scanner [] false)
      (accept-IsLine, tt) (omega arith)

peek-del_example : peek (del post (codes "hOST")) (codes "hOST") ≡ []
peek-del_example = peek-del post (codes "hOST")

abbrev page : ResponseHeader
page = record {
  disable_normalizing = false;
  no_http11 = false;
  connection_close = false;
  no_default_content_type = false;
  no_default_date = false;
  status_code = pos 404;
  content_length = pos 0;
  content_length_bytes = [];
  content_type = codes "text/html";
  server = codes "s";
  h = record { visible = []; spare = [] };
  cookies = record { visible = []; spare = [] };
}

abbrev two_lines : Bytes
two_lines = b'a' ∷ b'\r' ∷ b'\n' ∷ codes "X: 1"

peek-set_example :
    justhttp.Header.Response.Fields.peek
      (justhttp.Header.Response.Fields.set page (codes "x-a") two_lines)
      (codes "x-a")
    ≡ map blank two_lines
unfolding normalize_header_key case_insensitive_compare
peek-set_example =
    peek-set page (codes "x-a") two_lines (refl, (refl, (refl, (refl, (refl, (refl, (refl, tt)))))))

normalize_header_key_iff_example :
    (normalize_header_key (codes "x-fOO") false ≡ normalize_header_key (codes "X-foo") false)
    ↔ (lowercase_bytes (codes "x-fOO") ≡ lowercase_bytes (codes "X-foo"))
normalize_header_key_iff_example = normalize_header_key_iff (codes "x-fOO") (codes "X-foo")
