-- ===== src/Header/Request/Writable.antt =====
-- When the header of a request can be read back from the lines that are written.
use justhttp.Base.{
  ◌≡◌, refl, inl, inr, Bool, true, false, not, ◌&&◌, none, List, [], ◌∷◌, ◌++◌, map, ◌==◌,
  Bool-cases, length, All-append, Bytes, codes, index_byte, index_byte-none,
}
use justhttp.Cookie.Scan.{trim_right}
use justhttp.Header.Scanner.{spaces, starts_blank}
use justhttp.Header.Scanner.Lines.{IsLine}
use justhttp.Header.Parse.Block.{AreLines}
use justhttp.Header.Request.{RequestHeader, method_of, request_uri_of, protocol_of, ignore_body}
use justhttp.Header.Request.Lines.{IsValue, filled, pair_of, close_line, printed}
use justhttp.Header.Request.Fold.{AreFields, IsLength}
use justhttp.Header.Request.FirstLine.{IsFirstLine}
use justhttp.Header.Request.Print.{written_content_type}

-- A header, without cookies, that can be read back: the method, the target and the protocol can
-- stand in a first line, the values and the names in lines, the length is a number or missing, and
-- no other header has a name that the parser knows.
pub record IsWritable (disable_normalizing : Bool) (r : RequestHeader) : Type 0 where
  pub first : IsFirstLine (method_of r) (request_uri_of r) (protocol_of r)
  pub current : protocol_of r ≡ codes "HTTP/1.1"
  pub agent : IsValue r.user_agent
  pub host : IsValue r.host
  pub type : IsValue r.content_type
  pub size : IsValue r.content_length_bytes
  pub length : IsLength r.content_length_bytes
  pub lines : AreLines (map pair_of r.h.visible)
  pub fields : AreFields disable_normalizing r.h.visible
  pub no_cookies : r.cookies.visible ≡ []

-- What can be said of a name that stands in lines.
abbrev IsName : Bytes → Type 0
IsName key = (value : Bytes) → IsValue value → IsLine key value

AreLines-filled : (key value : Bytes) → IsName key → IsValue value → AreLines (filled key value)
AreLines-filled key [] n v = tt
AreLines-filled key (c ∷ value) n v = (n (c ∷ value) v, tt)

AreLines-append : (a b : List (Bytes × Bytes)) → AreLines a → AreLines b → AreLines (a ++ b)
AreLines-append a b = All-append (λ kv. IsLine kv.0 kv.1) a b

fixed-IsName :
    (key : Bytes)
    → index_byte key b':' ≡ none
    → index_byte key b'\n' ≡ none
    → starts_blank key ≡ false
    → IsName key
fixed-IsName key no_colon no_line no_blank value v = record {
  key_colon = index_byte-none key b':' no_colon;
  key_line = index_byte-none key b'\n' no_line;
  key_starts = no_blank;
  value_line = v.line;
  value_starts = v.starts;
  value_ends = v.ends;
}

fixed-IsValue :
    (value : Bytes)
    → index_byte value b'\n' ≡ none
    → spaces value ≡ 0
    → trim_right value ≡ value
    → IsValue value
fixed-IsValue value no_line starts ends = record {
  line = index_byte-none value b'\n' no_line;
  starts = starts;
  ends = ends;
}

written_content_type-IsValue :
    (r : RequestHeader) → IsValue r.content_type → IsValue (written_content_type r)
unfolding written_content_type index_byte spaces trim_right
written_content_type-IsValue r v =
    elim (Bool-cases (length r.content_type == 0 && not (ignore_body r))) [
      | inl absent ↦ rw absent (fixed-IsValue (codes "application/octet-stream") refl refl refl)
      | inr given ↦ rw given v
    ]

close_line-AreLines : (close : Bool) → AreLines (close_line close)
unfolding index_byte spaces trim_right
close_line-AreLines true = (
  fixed-IsName (codes "Connection") refl refl refl (codes "close")
      (fixed-IsValue (codes "close") refl refl refl),
  tt,
)
close_line-AreLines false = tt

pub printed-AreLines :
    (plain : Bool) (r : RequestHeader) → IsWritable plain r → AreLines (printed r)
unfolding index_byte
printed-AreLines plain r v =
    let add =
      λ (key value : Bytes) (n : IsName key) (u : IsValue value) (rest : List (Bytes × Bytes))
          (a : AreLines rest).
        AreLines-append (filled key value) rest (AreLines-filled key value n u) a in
    let fields =
      AreLines-append (map pair_of r.h.visible) (close_line r.connection_close) v.lines
        (close_line-AreLines r.connection_close) in
    let size =
      add (codes "Content-Length") r.content_length_bytes
        (fixed-IsName (codes "Content-Length") refl refl refl) v.size _ fields in
    let type =
      add (codes "Content-Type") (written_content_type r)
        (fixed-IsName (codes "Content-Type") refl refl refl) (written_content_type-IsValue r v.type)
        _ size in
    let host =
      add (codes "Host") r.host (fixed-IsName (codes "Host") refl refl refl) v.host _ type in
    add (codes "User-Agent") r.user_agent (fixed-IsName (codes "User-Agent") refl refl refl) v.agent
      _ host
