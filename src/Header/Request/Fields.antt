-- ===== src/Header/Request/Fields.antt =====
-- Headers of a request by their names: `Set`, `Add`, `Del` and `Peek`. A name with a field of its
-- own is special.
pub mod Deleted
use justhttp.Base.{
  zero, suc, Bool, true, false, ◌&&◌, Option, none, some, [], ◌∷◌, ◌++◌, ◌==◌, if◌then◌else◌, Bytes,
  codes, equal, ok, err,
}
use Prim.Native.Nat.{bit_or}
use justhttp.Base.Int.{ℤ, pos, negsuc}
use justhttp.Args.Slots.{Slots}
use justhttp.Args.Store.{set_arg, append_arg, del_all_args, peek_arg}
use justhttp.Bytesconv.Uint.{append_uint}
use justhttp.Cookie.Parse.{case_insensitive_compare}
use justhttp.Cookie.Scan.{parse_request_cookies, append_request_cookie_bytes}
use justhttp.Uri.Path.{◌then_if_done◌}
use justhttp.Header.Key.{normalize_header_key}
use justhttp.Header.Value.{remove_new_lines, has_header_value}
use justhttp.Header.Length.{parse_content_length}
use justhttp.Header.Request.{
  RequestHeader, set_content_type, set_connection_close, reset_connection_close, set_host,
  set_user_agent,
}
use justhttp.Header.Request.Cookies.{collect_cookies}

-- The case "Content-Length": what is no length is dropped.
unfoldable pub set_length_bytes : RequestHeader → Bytes → RequestHeader
unfolding parse_content_length
set_length_bytes r value = elim (parse_content_length value) [
  | ok n ↦ record r { content_length = pos n; content_length_bytes = value }
  | err e ↦ r
]

-- The case "Connection".
unfoldable pub set_connection : RequestHeader → Bytes → Bytes → RequestHeader
unfolding equal set_connection_close reset_connection_close set_arg
set_connection r key value =
    let kept = reset_connection_close r in
    if equal (codes "close") value
    then set_connection_close r
    else record kept { h = set_arg kept.h key value false }

-- The case "Cookie".
unfoldable pub add_cookies : RequestHeader → Bytes → Option RequestHeader
unfolding collect_cookies parse_request_cookies
add_cookies r value = collect_cookies r then_if_done λ c.
    parse_request_cookies c.cookies value then_if_done λ more. some (record c { cookies = more })

abbrev pub handled : RequestHeader → Option (RequestHeader × Bool)
handled r = some (r, true)

-- `setSpecialHeader`, with whether the header is special. The switch is on the key's first char.
unfoldable pub set_special_header : RequestHeader → Bytes → Bytes → Option (RequestHeader × Bool)
unfolding case_insensitive_compare set_content_type set_length_bytes set_connection add_cookies
    set_host set_user_agent
set_special_header r [] value = some (r, false)
set_special_header r (k ∷ key) value =
    let first = bit_or k 32 in
    let is = λ (name : Bytes). case_insensitive_compare name (k ∷ key) in
    if first == b'c' && is (codes "Content-Type")
    then handled (set_content_type r value)
    else if first == b'c' && is (codes "Content-Length")
    then handled (set_length_bytes r value)
    else if first == b'c' && is (codes "Connection")
    then handled (set_connection r (k ∷ key) value)
    else if first == b'c' && is (codes "Cookie")
    then (add_cookies r value then_if_done handled)
    else if first == b't' && is (codes "Transfer-Encoding")
    then handled r
    else if first == b'h' && is (codes "Host")
    then handled (set_host r value)
    else if first == b'u' && is (codes "User-Agent")
    then handled (set_user_agent r value)
    else some (r, false)

unfoldable pub set_canonical : RequestHeader → Bytes → Bytes → Option RequestHeader
unfolding set_special_header set_arg
set_canonical r key value = set_special_header r key value then_if_done λ tried.
    some (if tried.1 then tried.0 else record tried.0 { h = set_arg tried.0.h key value false })

-- `RequestHeader.Set`; its twins on bytes leave the new lines.
unfoldable pub set : RequestHeader → Bytes → Bytes → Option RequestHeader
unfolding normalize_header_key remove_new_lines set_canonical
set r key value =
    set_canonical r (normalize_header_key key r.disable_normalizing) (remove_new_lines value)

unfoldable pub set_bytes : RequestHeader → Bytes → Bytes → Option RequestHeader
unfolding normalize_header_key set_canonical
set_bytes r key value = set_canonical r (normalize_header_key key r.disable_normalizing) value

abbrev minus : ℤ → ℤ
minus (pos zero) = pos zero
minus (pos (suc n)) = negsuc n
minus (negsuc n) = pos (suc n)

-- A number of a range; one that is negative is left out.
unfoldable pub append_bound : Bytes → ℤ → Option Bytes
unfolding append_uint
append_bound b (pos n) = append_uint b n
append_bound b (negsuc n) = some b

-- `SetByteRange`; `none` is the panic of `AppendUint`.
unfoldable pub set_byte_range : RequestHeader → ℤ → ℤ → Option RequestHeader
unfolding append_bound set_canonical
set_byte_range r start_pos end_pos =
    let last : ℤ = elim start_pos [ pos n ↦ end_pos | negsuc n ↦ minus (negsuc n) ] in
    append_bound (codes "bytes=") start_pos then_if_done λ b.
    append_bound (b ++ b'-' ∷ []) last then_if_done λ b. set_canonical r (codes "Range") b

-- `RequestHeader.Add`.
unfoldable pub add : RequestHeader → Bytes → Bytes → Option RequestHeader
unfolding set_special_header normalize_header_key append_arg
add r key value = set_special_header r key value then_if_done λ tried. some (
    if tried.1 then tried.0 else record tried.0 {
      h = append_arg tried.0.h (normalize_header_key key r.disable_normalizing) value false;
    })

-- The switch of `del`, on a name in its normal form.
unfoldable pub clear_special : RequestHeader → Bytes → RequestHeader
unfolding equal justhttp.Args.Slots.reset
clear_special r key =
    if equal key (codes "Host")
    then record r { host = [] }
    else if equal key (codes "Content-Type")
    then record r { content_type = [] }
    else if equal key (codes "User-Agent")
    then record r { user_agent = [] }
    else if equal key (codes "Cookie")
    then record r { cookies = justhttp.Args.Slots.reset r.cookies }
    else if equal key (codes "Content-Length")
    then record r { content_length = pos 0; content_length_bytes = [] }
    else if equal key (codes "Connection")
    then record r { connection_close = false }
    else r

unfoldable pub del_key : RequestHeader → Bytes → RequestHeader
unfolding clear_special del_all_args
del_key r key = record (clear_special r key) { h = del_all_args r.h key }

-- `RequestHeader.Del`.
unfoldable pub del : RequestHeader → Bytes → RequestHeader
unfolding del_key normalize_header_key
del r key = del_key r (normalize_header_key key r.disable_normalizing)

-- `peekArgBytes`, where nil is the empty text.
unfoldable pub peek_bytes : Slots → Bytes → Bytes
unfolding peek_arg
peek_bytes h key = elim (peek_arg h.visible key) [ none ↦ [] | some v ↦ v ]

unfoldable pub peek_key : RequestHeader → Bytes → Bytes
unfolding equal peek_bytes append_request_cookie_bytes
peek_key r key =
    if equal key (codes "Host")
    then r.host
    else if equal key (codes "Content-Type")
    then r.content_type
    else if equal key (codes "User-Agent")
    then r.user_agent
    else if equal key (codes "Connection") && r.connection_close
    then codes "close"
    else if equal key (codes "Content-Length")
    then r.content_length_bytes
    else if equal key (codes "Cookie") && r.cookies_collected
    then append_request_cookie_bytes [] r.cookies.visible
    else peek_bytes r.h key

-- `RequestHeader.Peek`.
unfoldable pub peek : RequestHeader → Bytes → Bytes
unfolding peek_key normalize_header_key
peek r key = peek_key r (normalize_header_key key r.disable_normalizing)

-- `ConnectionUpgrade`.
unfoldable pub connection_upgrade : RequestHeader → Option Bool
unfolding has_header_value peek
connection_upgrade r = has_header_value (peek r (codes "Connection")) (codes "Upgrade")
