-- ===== src/Header/Response/Print.antt =====
-- `ResponseHeader.AppendBytes` and `VisitAll` of header.go. `date` is the text of `serverDate`,
-- which another goroutine keeps.
use justhttp.Base.{
  ℕ, zero, suc, Bool, true, false, not, ◌||◌, Option, some, List, [], ◌∷◌, ◌++◌, map, ltb,
  if◌then◌else◌, length, Bytes, codes, equal,
}
use justhttp.Base.Int.{ℤ, pos, negsuc}
use justhttp.Args.Slots.{ArgsKv}
use justhttp.Header.Line.{append_header_line, append_filled_line}
use justhttp.Header.Status.{status_line}
use justhttp.Header.Response.{ResponseHeader, status_code_of, content_type_of}
use justhttp.Uri.Path.{◌then_if_done◌}

-- The code that is written.
unfoldable pub written_status : ResponseHeader → ℕ
unfolding status_code_of
written_status r = elim (status_code_of r) [ pos n ↦ n | negsuc n ↦ 200 ]

abbrev has_body : ℤ → Bool
has_body (pos zero) = false
has_body (pos (suc n)) = true
has_body (negsuc n) = true

-- The content type that is written.
unfoldable pub written_content_type : ResponseHeader → Bytes
unfolding content_type_of
written_content_type r =
    if has_body r.content_length || ltb 0 (length r.content_type) then content_type_of r else []

-- The loop over `h.h`, which leaves out the dates if there is one by default.
unfoldable pub append_dated_lines : Bool → Bytes → List ArgsKv → Bytes
unfolding append_header_line equal
append_dated_lines no_default_date dst [] = dst
append_dated_lines no_default_date dst (kv ∷ kvs) =
    append_dated_lines no_default_date
      (if no_default_date || not (equal kv.key (codes "Date"))
        then append_header_line dst kv.key kv.value
        else dst)
      kvs

unfoldable pub append_set_cookies : Bytes → List ArgsKv → Bytes
unfolding append_header_line
append_set_cookies dst [] = dst
append_set_cookies dst (kv ∷ kvs) =
    append_set_cookies (append_header_line dst (codes "Set-Cookie") kv.value) kvs

-- What stands between the status line and the empty line.
unfoldable pub append_headers : Bytes → Bytes → ResponseHeader → Bytes
unfolding append_header_line append_filled_line written_content_type append_dated_lines
    append_set_cookies
append_headers date dst r =
    let served = append_filled_line dst (codes "Server") r.server in
    let dated =
      if r.no_default_date then served else append_header_line served (codes "Date") date in
    let type = append_filled_line dated (codes "Content-Type") (written_content_type r) in
    let size = append_filled_line type (codes "Content-Length") r.content_length_bytes in
    let lines = append_dated_lines r.no_default_date size r.h.visible in
    let baked = append_set_cookies lines r.cookies.visible in
    if r.connection_close
    then append_header_line baked (codes "Connection") (codes "close")
    else baked

-- `ResponseHeader.AppendBytes`.
unfoldable pub append_response_header : Bytes → Bytes → ResponseHeader → Option Bytes
unfolding status_line written_status append_headers
append_response_header date dst r = status_line (written_status r) then_if_done λ line.
    some (append_headers date (dst ++ line) r ++ b'\r' ∷ b'\n' ∷ [])

abbrev visit_filled : Bytes → Bytes → List (Bytes × Bytes)
visit_filled key value = if ltb 0 (length value) then (key, value) ∷ [] else []

-- The keys and values that `VisitAll` hands out.
unfoldable pub visit_all : ResponseHeader → List (Bytes × Bytes)
unfolding content_type_of
visit_all r =
    visit_filled (codes "Content-Length") r.content_length_bytes
    ++ (visit_filled (codes "Content-Type") (content_type_of r)
        ++ (visit_filled (codes "Server") r.server
            ++ (map (λ kv. (codes "Set-Cookie", kv.value)) r.cookies.visible
                ++ (map (λ kv. (kv.key, kv.value)) r.h.visible
                    ++ (if r.connection_close
                        then (codes "Connection", codes "close") ∷ []
                        else [])))))
