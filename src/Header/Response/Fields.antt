-- ===== src/Header/Response/Fields.antt =====
-- Headers of a response by their names: `Set`, `Add`, `Del` and `Peek`, and its cookies.
pub mod Deleted
pub mod Stored
use justhttp.Base.{
  ℕ, Bool, true, false, ◌&&◌, Option, some, [], ◌∷◌, ◌++◌, ◌==◌, if◌then◌else◌, Bytes, codes, equal,
  ok, err,
}
use Prim.Native.Nat.{bit_or}
use justhttp.Base.Int.{ℤ, pos}
use justhttp.Args.Slots.{Slots, alloc_arg}
use justhttp.Args.Store.{set_arg, append_arg, del_all_args, peek_arg}
use justhttp.Bytesconv.Uint.{append_uint}
use justhttp.Cookie.Parse.{case_insensitive_compare}
use justhttp.Cookie.Scan.{get_cookie_key, append_response_cookie_bytes}
use justhttp.Uri.Path.{◌then_if_done◌}
use justhttp.Header.Key.{normalize_header_key}
use justhttp.Header.Value.{remove_new_lines, has_header_value}
use justhttp.Header.Length.{parse_content_length}
use justhttp.Header.Request.Fields.{peek_bytes}
use justhttp.Header.Response.{
  ResponseHeader, set_content_type, set_connection_close, reset_connection_close, set_server,
  content_type_of,
}

-- A value of "Set-Cookie", in the next slot.
unfoldable pub add_cookie : ResponseHeader → Bytes → ResponseHeader
unfolding get_cookie_key alloc_arg
add_cookie r value =
    let (slot, spare) = alloc_arg r.cookies.spare in
    record r {
      cookies = record {
        visible =
            r.cookies.visible ++ (record slot { key = get_cookie_key value; value = value }) ∷ [];
        spare = spare;
      };
    }

-- The case "Content-Length": what is no length is dropped.
unfoldable pub set_length_bytes : ResponseHeader → Bytes → ResponseHeader
unfolding parse_content_length
set_length_bytes r value = elim (parse_content_length value) [
  | ok n ↦ record r { content_length = pos n; content_length_bytes = value }
  | err e ↦ r
]

-- The case "Connection".
unfoldable pub set_connection : ResponseHeader → Bytes → Bytes → ResponseHeader
unfolding equal set_connection_close reset_connection_close set_arg
set_connection r key value =
    let kept = reset_connection_close r in
    if equal (codes "close") value
    then set_connection_close r
    else record kept { h = set_arg kept.h key value false }

-- `setSpecialHeader`, with whether the header is special. The switch is on the key's first char.
unfoldable pub set_special_header : ResponseHeader → Bytes → Bytes → ResponseHeader × Bool
unfolding case_insensitive_compare set_content_type set_length_bytes set_connection set_server
    add_cookie
set_special_header r [] value = (r, false)
set_special_header r (k ∷ key) value =
    let first = bit_or k 32 in
    let is = λ (name : Bytes). case_insensitive_compare name (k ∷ key) in
    if first == b'c' && is (codes "Content-Type")
    then (set_content_type r value, true)
    else if first == b'c' && is (codes "Content-Length")
    then (set_length_bytes r value, true)
    else if first == b'c' && is (codes "Connection")
    then (set_connection r (k ∷ key) value, true)
    else if first == b's' && is (codes "Server")
    then (set_server r value, true)
    else if first == b's' && is (codes "Set-Cookie")
    then (add_cookie r value, true)
    else if first == b't' && is (codes "Transfer-Encoding")
    then (r, true)
    else if first == b'd' && is (codes "Date")
    then (r, true)
    else (r, false)

unfoldable pub set_canonical : ResponseHeader → Bytes → Bytes → ResponseHeader
unfolding set_special_header set_arg
set_canonical r key value =
    let tried = set_special_header r key value in
    if tried.1 then tried.0 else record tried.0 { h = set_arg tried.0.h key value false }

-- `ResponseHeader.Set`; its twins on bytes leave the new lines.
unfoldable pub set : ResponseHeader → Bytes → Bytes → ResponseHeader
unfolding normalize_header_key remove_new_lines set_canonical
set r key value =
    set_canonical r (normalize_header_key key r.disable_normalizing) (remove_new_lines value)

unfoldable pub set_bytes : ResponseHeader → Bytes → Bytes → ResponseHeader
unfolding normalize_header_key set_canonical
set_bytes r key value = set_canonical r (normalize_header_key key r.disable_normalizing) value

-- `ResponseHeader.Add`.
unfoldable pub add : ResponseHeader → Bytes → Bytes → ResponseHeader
unfolding set_special_header normalize_header_key append_arg
add r key value =
    let tried = set_special_header r key value in
    if tried.1 then tried.0 else record tried.0 {
      h = append_arg tried.0.h (normalize_header_key key r.disable_normalizing) value false;
    }

-- `SetContentRange`; `none` is the panic of `AppendUint`.
unfoldable pub set_content_range : ResponseHeader → ℕ → ℕ → ℕ → Option ResponseHeader
unfolding append_uint set_canonical
set_content_range r start_pos end_pos content_length =
    append_uint (codes "bytes ") start_pos then_if_done λ b.
    append_uint (b ++ b'-' ∷ []) end_pos then_if_done λ b.
    append_uint (b ++ b'/' ∷ []) content_length then_if_done λ b.
    some (set_canonical r (codes "Content-Range") b)

-- The switch of `del`, on a name in its normal form.
unfoldable pub clear_special : ResponseHeader → Bytes → ResponseHeader
unfolding equal justhttp.Args.Slots.reset
clear_special r key =
    if equal key (codes "Content-Type")
    then record r { content_type = [] }
    else if equal key (codes "Server")
    then record r { server = [] }
    else if equal key (codes "Set-Cookie")
    then record r { cookies = justhttp.Args.Slots.reset r.cookies }
    else if equal key (codes "Content-Length")
    then record r { content_length = pos 0; content_length_bytes = [] }
    else if equal key (codes "Connection")
    then record r { connection_close = false }
    else r

unfoldable pub del_key : ResponseHeader → Bytes → ResponseHeader
unfolding clear_special del_all_args
del_key r key = record (clear_special r key) { h = del_all_args r.h key }

-- `ResponseHeader.Del`.
unfoldable pub del : ResponseHeader → Bytes → ResponseHeader
unfolding del_key normalize_header_key
del r key = del_key r (normalize_header_key key r.disable_normalizing)

unfoldable pub peek_key : ResponseHeader → Bytes → Bytes
unfolding equal peek_bytes content_type_of append_response_cookie_bytes
peek_key r key =
    if equal key (codes "Content-Type")
    then content_type_of r
    else if equal key (codes "Server")
    then r.server
    else if equal key (codes "Connection") && r.connection_close
    then codes "close"
    else if equal key (codes "Content-Length")
    then r.content_length_bytes
    else if equal key (codes "Set-Cookie")
    then append_response_cookie_bytes [] r.cookies.visible
    else peek_bytes r.h key

-- `ResponseHeader.Peek`.
unfoldable pub peek : ResponseHeader → Bytes → Bytes
unfolding peek_key normalize_header_key
peek r key = peek_key r (normalize_header_key key r.disable_normalizing)

-- `ConnectionUpgrade`.
unfoldable pub connection_upgrade : ResponseHeader → Option Bool
unfolding has_header_value peek
connection_upgrade r = has_header_value (peek r (codes "Connection")) (codes "Upgrade")

-- `SetCookie`, of a cookie with this key and this text.
unfoldable pub set_cookie : ResponseHeader → Bytes → Bytes → ResponseHeader
unfolding set_arg
set_cookie r key text = record r { cookies = set_arg r.cookies key text false }

unfoldable pub del_cookie : ResponseHeader → Bytes → ResponseHeader
unfolding del_all_args
del_cookie r key = record r { cookies = del_all_args r.cookies key }

unfoldable pub del_all_cookies : ResponseHeader → ResponseHeader
unfolding justhttp.Args.Slots.reset
del_all_cookies r = record r { cookies = justhttp.Args.Slots.reset r.cookies }

-- `PeekCookie`; nil is `none`.
unfoldable pub peek_cookie : ResponseHeader → Bytes → Option Bytes
unfolding peek_arg
peek_cookie r key = peek_arg r.cookies.visible key
