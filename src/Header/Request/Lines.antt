-- ===== src/Header/Request/Lines.antt =====
-- The lines that a request's header is written as.
use justhttp.Base.{
  ◌≡◌, refl, sym, ap, ◌∙◌, Bool, true, false, List, [], ◌∷◌, ◌++◌, map, append_assoc, arith,
  if◌then◌else◌, All-append, Bytes, codes, Lacks,
}
use justhttp.Args.Slots.{ArgsKv}
use justhttp.Cookie.Scan.{trim_right}
use justhttp.Header.Line.{append_header_line, append_filled_line, append_lines}
use justhttp.Header.Scanner.{spaces}
use justhttp.Header.Scanner.Lines.{IsLine, line_then}
use justhttp.Header.Parse.Block.{lines_then, AreLines}
use justhttp.Header.Request.{RequestHeader}
use justhttp.Header.Request.Print.{written_content_type, append_cookies, append_headers}

-- A value that stays as it is in a line.
pub record IsValue (value : Bytes) : Type 0 where
  pub line : Lacks b'\n' value
  pub starts : spaces value ≡ 0
  pub ends : trim_right value ≡ value

abbrev pub filled : Bytes → Bytes → List (Bytes × Bytes)
filled key [] = []
filled key (c ∷ value) = (key, c ∷ value) ∷ []

abbrev pub pair_of : ArgsKv → Bytes × Bytes
pair_of kv = (kv.key, kv.value)

abbrev pub close_line : Bool → List (Bytes × Bytes)
close_line true = (codes "Connection", codes "close") ∷ []
close_line false = []

-- The headers that are written, in order, of a request without cookies.
abbrev pub printed : RequestHeader → List (Bytes × Bytes)
printed r =
    filled (codes "User-Agent") r.user_agent
    ++ (filled (codes "Host") r.host
        ++ (filled (codes "Content-Type") (written_content_type r)
            ++ (filled (codes "Content-Length") r.content_length_bytes
                ++ (map pair_of r.h.visible ++ close_line r.connection_close))))

lines_then-append :
    (a b : List (Bytes × Bytes)) (rest : Bytes)
    → lines_then (a ++ b) rest ≡ lines_then a (lines_then b rest)
lines_then-append [] b rest = refl
lines_then-append (kv ∷ a) b rest = ap (line_then kv.0 kv.1) (lines_then-append a b rest)

append_header_line-line_then :
    (dst key value rest : Bytes)
    → append_header_line dst key value ++ rest ≡ dst ++ line_then key value rest
unfolding append_header_line
append_header_line-line_then dst key value rest =
    append_assoc (((dst ++ key) ++ codes ": ") ++ value) (b'\r' ∷ b'\n' ∷ []) rest
    ∙ append_assoc ((dst ++ key) ++ codes ": ") value (b'\r' ∷ b'\n' ∷ rest)
    ∙ append_assoc (dst ++ key) (codes ": ") (value ++ b'\r' ∷ b'\n' ∷ rest)
    ∙ append_assoc dst key (codes ": " ++ (value ++ b'\r' ∷ b'\n' ∷ rest))

append_filled_line-filled :
    (dst key value rest : Bytes)
    → append_filled_line dst key value ++ rest ≡ dst ++ lines_then (filled key value) rest
unfolding append_filled_line
append_filled_line-filled dst key [] rest = refl
append_filled_line-filled dst key (c ∷ value) rest =
    ground (arith, append_header_line-line_then dst key (c ∷ value) rest)

append_lines-pairs :
    (dst : Bytes) (kvs : List ArgsKv) (rest : Bytes)
    → append_lines dst kvs ++ rest ≡ dst ++ lines_then (map pair_of kvs) rest
unfolding append_lines
append_lines-pairs dst [] rest = refl
append_lines-pairs dst (kv ∷ kvs) rest =
    append_lines-pairs (append_header_line dst kv.key kv.value) kvs rest
    ∙ append_header_line-line_then dst kv.key kv.value (lines_then (map pair_of kvs) rest)

append_close-close_line :
    (dst : Bytes) (close : Bool) (rest : Bytes)
    → (if close then append_header_line dst (codes "Connection") (codes "close") else dst) ++ rest
      ≡ dst ++ lines_then (close_line close) rest
append_close-close_line dst true rest =
    append_header_line-line_then dst (codes "Connection") (codes "close") rest
append_close-close_line dst false rest = refl

-- `AppendBytes` writes these lines.
pub append_headers-printed :
    (dst : Bytes) (r : RequestHeader) (rest : Bytes)
    → r.cookies.visible ≡ []
    → append_headers dst r ++ rest ≡ dst ++ lines_then (printed r) rest
unfolding append_headers append_cookies
append_headers-printed dst r rest no_cookies =
    let agent = filled (codes "User-Agent") r.user_agent in
    let host = filled (codes "Host") r.host in
    let type = filled (codes "Content-Type") (written_content_type r) in
    let size = filled (codes "Content-Length") r.content_length_bytes in
    let fields = map pair_of r.h.visible in
    let close = close_line r.connection_close in
    let l5 = lines_then close rest in
    let l4 = lines_then fields l5 in
    let l3 = lines_then size l4 in
    let l2 = lines_then type l3 in
    let l1 = lines_then host l2 in
    let d1 = append_filled_line dst (codes "User-Agent") r.user_agent in
    let d2 = append_filled_line d1 (codes "Host") r.host in
    let d3 = append_filled_line d2 (codes "Content-Type") (written_content_type r) in
    let d4 = append_filled_line d3 (codes "Content-Length") r.content_length_bytes in
    let d5 = append_lines d4 r.h.visible in
    append_close-close_line (append_cookies d5 r.cookies.visible) r.connection_close rest
    ∙ ap (λ kvs. append_cookies d5 kvs ++ l5) no_cookies
    ∙ append_lines-pairs d4 r.h.visible l5
    ∙ append_filled_line-filled d3 (codes "Content-Length") r.content_length_bytes l4
    ∙ append_filled_line-filled d2 (codes "Content-Type") (written_content_type r) l3
    ∙ append_filled_line-filled d1 (codes "Host") r.host l2
    ∙ append_filled_line-filled dst (codes "User-Agent") r.user_agent l1
    ∙ ap (λ t. dst ++ t)
        (sym (
          lines_then-append agent (host ++ (type ++ (size ++ (fields ++ close)))) rest
          ∙ ap (lines_then agent) (
              lines_then-append host (type ++ (size ++ (fields ++ close))) rest
              ∙ ap (lines_then host) (
                  lines_then-append type (size ++ (fields ++ close)) rest
                  ∙ ap (lines_then type) (
                      lines_then-append size (fields ++ close) rest
                      ∙ ap (lines_then size) (lines_then-append fields close rest))))))

AreLines-append : (a b : List (Bytes × Bytes)) → AreLines a → AreLines b → AreLines (a ++ b)
AreLines-append a b = All-append (λ kv. IsLine kv.0 kv.1) a b
