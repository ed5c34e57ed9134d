-- ===== src/Header/Request/Fold.antt =====
-- What parsing headers one after another gives.
use justhttp.Base.{
  ℕ, ◌<◌, ◌≡◌, refl, sym, ap, ◌∙◌, Bool, true, false, Option, none, List, [], ◌∷◌, ◌++◌, map,
  append-nil, arith, length, All, Bytes, codes, equal, Result, ok, err, index_byte,
}
use justhttp.Base.Int.{ℤ, pos}
use justhttp.Args.Slots.{ArgsKv, Slots}
use justhttp.Args.Store.{append_arg}
use justhttp.Args.Store.Laws.{visible-append_arg}
use justhttp.Cookie.Parse.{case_insensitive_compare}
use justhttp.Header.Key.{normalize_header_key}
use justhttp.Header.Length.{LengthError, parse_content_length}
use justhttp.Header.Parse.{HeaderError, identity}
use justhttp.Header.Parse.Block.{fold_headers}
use justhttp.Header.Request.{RequestHeader}
use justhttp.Header.Request.Parse.{Parsing, parse_length, append_field, parse_field, parse_header}
use justhttp.Header.Request.Print.{written_content_type}
use justhttp.Header.Request.Lines.{filled, pair_of, close_line, printed}

-- The names with fields of their own, and "Transfer-Encoding".
abbrev pub special_names : List Bytes
special_names =
    codes "Host"
    ∷ codes "User-Agent"
    ∷ codes "Content-Type"
    ∷ codes "Content-Length"
    ∷ codes "Connection"
    ∷ codes "Transfer-Encoding"
    ∷ []

-- A name in its normal form that is kept among the other headers.
pub record IsPlain (disable_normalizing : Bool) (key : Bytes) : Type 0 where
  pub normal : normalize_header_key key disable_normalizing ≡ key
  pub no_space : index_byte key b' ' ≡ none
  pub no_tab : index_byte key b'\t' ≡ none
  pub common : All (λ name. case_insensitive_compare key name ≡ false) special_names

parse_header-plain :
    (p : Parsing) (plain : Bool) (key value : Bytes)
    → IsPlain plain key
    → parse_header p key value ≡ (append_field p.0 key value, p.1)
unfolding parse_header parse_field index_byte
parse_header-plain p plain [] value v = refl
parse_header-plain p plain (k ∷ key) value v =
    rw (parse_header, v.no_space, v.no_tab)
      (ground (
        arith, v.common.0, v.common.1.0, v.common.1.1.0, v.common.1.1.1.0, v.common.1.1.1.1.0,
        v.common.1.1.1.1.1.0,
      ))

-- Fields one after another stay in order.
abbrev pub append_slots : Slots → List ArgsKv → Slots
append_slots h [] = h
append_slots h (kv ∷ kvs) = append_slots (append_arg h kv.key kv.value false) kvs

abbrev pub AreFields : Bool → List ArgsKv → Type 0
AreFields plain kvs = All (λ kv. IsPlain plain kv.key) kvs

fold_headers-append :
    (plain : Bool) (p : Parsing) (a b : List (Bytes × Bytes))
    → fold_headers parse_header plain p (a ++ b)
      ≡ fold_headers parse_header plain (fold_headers parse_header plain p a) b
fold_headers-append plain p [] b = refl
fold_headers-append plain p (kv ∷ a) b =
    fold_headers-append plain (parse_header p (normalize_header_key kv.0 plain) kv.1) a b

fold_headers-fields :
    (plain : Bool) (r : RequestHeader) (e : Option HeaderError) (kvs : List ArgsKv)
    → AreFields plain kvs
    → fold_headers parse_header plain (r, e) (map pair_of kvs)
      ≡ (record r { h = append_slots r.h kvs }, e)
unfolding append_field
fold_headers-fields plain r e [] a = refl
fold_headers-fields plain r e (kv ∷ kvs) (h, a) =
    ap (λ key. fold_headers parse_header plain (parse_header (r, e) key kv.value) (map pair_of kvs))
      h.normal
    ∙ ap (λ p. fold_headers parse_header plain p (map pair_of kvs))
        (parse_header-plain (r, e) plain kv.key kv.value h)
    ∙ fold_headers-fields plain (append_field r kv.key kv.value) e kvs a

map-snoc :
    (kvs others : List ArgsKv) (kv : ArgsKv)
    → map pair_of (kvs ++ kv ∷ []) ++ map pair_of others
      ≡ map pair_of kvs ++ map pair_of (kv ∷ others)
map-snoc [] others kv = refl
map-snoc (v ∷ kvs) others kv = ap (◌∷◌ (pair_of v)) (map-snoc kvs others kv)

pub visible-append_slots :
    (h : Slots) (kvs : List ArgsKv)
    → map pair_of (append_slots h kvs).visible ≡ map pair_of h.visible ++ map pair_of kvs
visible-append_slots h [] = sym (append-nil (map pair_of h.visible))
visible-append_slots h (kv ∷ kvs) =
    visible-append_slots (append_arg h kv.key kv.value false) kvs
    ∙ ap (λ h. map pair_of h ++ map pair_of kvs) (visible-append_arg h kv.key kv.value false)
    ∙ map-snoc h.visible kvs (record { key = kv.key; value = kv.value; no_value = false })

abbrev length_read : Result LengthError ℕ → ℤ
length_read (ok n) = pos n
length_read (err e) = identity

-- The content length that is read from the text of a header, which may be missing.
abbrev pub length_of : Bytes → ℤ
length_of [] = identity
length_of (c ∷ b) = length_read (parse_content_length (c ∷ b))

pub data IsLength : Bytes → Type 0 where
  missing : IsLength []
  reads : {b : Bytes} (n : ℕ) → parse_content_length b ≡ ok n → IsLength b

fold_headers-filled :
    (plain : Bool) (p : Parsing) (key value : Bytes) (rest : List (Bytes × Bytes))
    → (set : Bytes → Parsing) → p ≡ set []
    → normalize_header_key key plain ≡ key
    → (0 < length value → parse_header p key value ≡ set value)
    → fold_headers parse_header plain p (filled key value ++ rest)
      ≡ fold_headers parse_header plain (set value) rest
fold_headers-filled plain p key [] rest set same normal step =
    ap (λ q. fold_headers parse_header plain q rest) same
fold_headers-filled plain p key (c ∷ value) rest set same normal step =
    ap (λ k. fold_headers parse_header plain (parse_header p k (c ∷ value)) rest) normal
    ∙ ap (λ q. fold_headers parse_header plain q rest) (step (omega arith))

normal_names :
    (plain : Bool)
    → (normalize_header_key (codes "User-Agent") plain ≡ codes "User-Agent")
      × (normalize_header_key (codes "Host") plain ≡ codes "Host")
      × (normalize_header_key (codes "Content-Type") plain ≡ codes "Content-Type")
      × (normalize_header_key (codes "Content-Length") plain ≡ codes "Content-Length")
      × (normalize_header_key (codes "Connection") plain ≡ codes "Connection")
unfolding normalize_header_key
normal_names true = (refl, refl, refl, refl, refl)
normal_names false = (refl, refl, refl, refl, refl)

parse_header-size :
    (r : RequestHeader) (e : Option HeaderError) (value : Bytes)
    → IsLength value
    → r.content_length ≡ identity
    → 0 < length value
    → parse_header (r, e) (codes "Content-Length") value
      ≡ (record r { content_length = length_of value; content_length_bytes = value }, e)
unfolding parse_header parse_field parse_length case_insensitive_compare index_byte
parse_header-size r e [] v no_length some_bytes = absurd (omega arith)
parse_header-size r e (c ∷ b) (reads n ok_n) no_length some_bytes =
    ap (parse_length (r, e) (c ∷ b)) no_length ∙ rw (parse_length, ok_n) refl

fold_headers-close :
    (plain close : Bool) (r : RequestHeader) (e : Option HeaderError)
    → r.connection_close ≡ false
    → fold_headers parse_header plain (r, e) (close_line close)
      ≡ (record r { connection_close = close }, e)
unfolding parse_header parse_field case_insensitive_compare index_byte equal
fold_headers-close plain false r e h = ap (λ b. (record r { connection_close = b }, e)) h
fold_headers-close plain true r e h =
    let (agent, host, type, size, normal) = normal_names plain in rw normal refl

-- The headers that are written are read one by one, to the same fields.
pub fold_headers-printed :
    (plain : Bool) (start r : RequestHeader)
    → start.content_length ≡ identity
    → start.content_length_bytes ≡ []
    → start.user_agent ≡ []
    → start.host ≡ []
    → start.content_type ≡ []
    → start.connection_close ≡ false
    → IsLength r.content_length_bytes
    → AreFields plain r.h.visible
    → fold_headers parse_header plain (start, none) (printed r) ≡ (
      record start {
        user_agent = r.user_agent;
        host = r.host;
        content_type = written_content_type r;
        content_length = length_of r.content_length_bytes;
        content_length_bytes = r.content_length_bytes;
        h = append_slots start.h r.h.visible;
        connection_close = r.connection_close;
      },
      none,
    )
unfolding parse_header parse_field case_insensitive_compare index_byte
fold_headers-printed plain start r no_length no_bytes no_agent no_host no_type no_close size
      fields =
    let (agent, host, type, length_name, connection) = normal_names plain in
    let s1 : RequestHeader = record start { user_agent = r.user_agent } in
    let s2 : RequestHeader = record s1 { host = r.host } in
    let s3 : RequestHeader = record s2 { content_type = written_content_type r } in
    let s4 : RequestHeader = record s3 {
      content_length = length_of r.content_length_bytes;
      content_length_bytes = r.content_length_bytes;
    } in
    let s5 : RequestHeader = record s4 { h = append_slots start.h r.h.visible } in
    let l5 = close_line r.connection_close in
    let l4 = map pair_of r.h.visible ++ l5 in
    let l3 = filled (codes "Content-Length") r.content_length_bytes ++ l4 in
    let l2 = filled (codes "Content-Type") (written_content_type r) ++ l3 in
    let l1 = filled (codes "Host") r.host ++ l2 in
    fold_headers-filled plain (start, none) (codes "User-Agent") r.user_agent l1
      (λ v. (record start { user_agent = v }, none))
      (ap (λ v. (record start { user_agent = v }, none)) no_agent) agent (λ h. refl)
    ∙ fold_headers-filled plain (s1, none) (codes "Host") r.host l2
        (λ v. (record s1 { host = v }, none)) (ap (λ v. (record s1 { host = v }, none)) no_host)
        host (λ h. refl)
    ∙ fold_headers-filled plain (s2, none) (codes "Content-Type") (written_content_type r) l3
        (λ v. (record s2 { content_type = v }, none))
        (ap (λ v. (record s2 { content_type = v }, none)) no_type) type (λ h. refl)
    ∙ fold_headers-filled plain (s3, none) (codes "Content-Length") r.content_length_bytes l4
        (λ v. (record s3 { content_length = length_of v; content_length_bytes = v }, none))
        (ap
          (λ (t : ℤ × Bytes).
            (record s3 { content_length = t.0; content_length_bytes = t.1 }, none))
          (ap (λ n. (n, s3.content_length_bytes)) no_length ∙ ap (λ b. (identity, b)) no_bytes))
        length_name (parse_header-size s3 none r.content_length_bytes size no_length)
    ∙ fold_headers-append plain (s4, none) (map pair_of r.h.visible) l5
    ∙ ap (λ p. fold_headers parse_header plain p l5)
        (fold_headers-fields plain s4 none r.h.visible fields)
    ∙ fold_headers-close plain r.connection_close s5 none no_close
