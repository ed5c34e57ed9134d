-- ===== src/Header/Request/Print.antt =====
-- `RequestHeader.AppendBytes` and `VisitAll` of header.go.
use justhttp.Base.{
  not, ◌&&◌, Option, some, List, [], ◌∷◌, ◌++◌, map, ltb, ◌==◌, if◌then◌else◌, length, Bytes, codes,
}
use justhttp.Args.Slots.{ArgsKv}
use justhttp.Cookie.Scan.{append_request_cookie_bytes}
use justhttp.Header.Line.{append_header_line, append_filled_line, append_lines}
use justhttp.Header.Request.{RequestHeader, method_of, protocol_of, request_uri_of, ignore_body}
use justhttp.Header.Request.Cookies.{collect_cookies}
use justhttp.Uri.Path.{◌then_if_done◌}

unfoldable pub append_first_line : Bytes → RequestHeader → Bytes
unfolding method_of request_uri_of protocol_of
append_first_line dst r =
    ((((dst ++ method_of r) ++ b' ' ∷ []) ++ request_uri_of r) ++ b' ' ∷ protocol_of r)
    ++ b'\r' ∷ b'\n' ∷ []

-- The content type that is written.
unfoldable pub written_content_type : RequestHeader → Bytes
unfolding ignore_body
written_content_type r =
    if length r.content_type == 0 && not (ignore_body r)
    then codes "application/octet-stream"
    else r.content_type

unfoldable pub append_cookies : Bytes → List ArgsKv → Bytes
unfolding append_request_cookie_bytes
append_cookies dst [] = dst
append_cookies dst (kv ∷ kvs) =
    append_request_cookie_bytes (dst ++ codes "Cookie: ") (kv ∷ kvs) ++ b'\r' ∷ b'\n' ∷ []

-- What stands between the first line and the empty line.
unfoldable pub append_headers : Bytes → RequestHeader → Bytes
unfolding append_filled_line append_lines append_cookies append_header_line written_content_type
append_headers dst r =
    let agent = append_filled_line dst (codes "User-Agent") r.user_agent in
    let host = append_filled_line agent (codes "Host") r.host in
    let type = append_filled_line host (codes "Content-Type") (written_content_type r) in
    let size = append_filled_line type (codes "Content-Length") r.content_length_bytes in
    let baked = append_cookies (append_lines size r.h.visible) r.cookies.visible in
    if r.connection_close
    then append_header_line baked (codes "Connection") (codes "close")
    else baked

-- `RequestHeader.AppendBytes`.
unfoldable pub append_request_header : Bytes → RequestHeader → Bytes
unfolding append_headers append_first_line
append_request_header dst r = append_headers (append_first_line dst r) r ++ b'\r' ∷ b'\n' ∷ []

abbrev visit_filled : Bytes → Bytes → List (Bytes × Bytes)
visit_filled key value = if ltb 0 (length value) then (key, value) ∷ [] else []

-- The keys and values that `VisitAll` hands out, with the header that it leaves.
unfoldable pub visit_all : RequestHeader → Option (RequestHeader × List (Bytes × Bytes))
unfolding collect_cookies append_request_cookie_bytes
visit_all r = collect_cookies r then_if_done λ c. some (
  c,
  visit_filled (codes "Host") c.host
      ++ (visit_filled (codes "Content-Length") c.content_length_bytes
          ++ (visit_filled (codes "Content-Type") c.content_type
              ++ (visit_filled (codes "User-Agent") c.user_agent
                  ++ ((if ltb 0 (length c.cookies.visible)
                        then (codes "Cookie", append_request_cookie_bytes [] c.cookies.visible) ∷ []
                        else [])
                      ++ (map (λ kv. (kv.key, kv.value)) c.h.visible
                          ++ (if c.connection_close
                              then (codes "Connection", codes "close") ∷ []
                              else [])))))),
)
