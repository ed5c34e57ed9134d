-- ===== src/Header/Request.antt =====
-- The header of a request, header.go: its fields and the methods that set one of them. The buffer
-- `bufKV` is written anew by each call that reads it, and is no part of the state; so is
-- `secureErrorLogMessage`, which chooses words for a log. A method on a string and its twin on
-- bytes are one function.
pub mod Writable
pub mod Fields
pub mod Cookies
pub mod Print
pub mod Parse
pub mod FirstLine
pub mod Lines
pub mod Fold
pub mod RoundTrip
use justhttp.Base.{
  Bool, true, false, not, ◌||◌, Option, some, [], ◌++◌, ◌==◌, if◌then◌else◌, length, Bytes, codes,
  equal,
}
use justhttp.Base.Int.{ℤ, pos, negsuc}
use justhttp.Args.Slots.{Slots}
use justhttp.Args.Store
use justhttp.Bytesconv.Uint.{append_uint}
use justhttp.Uri.Path.{◌then_if_done◌}

pub record RequestHeader : Type 0 where
  pub disable_normalizing : Bool
  pub no_http11 : Bool
  pub connection_close : Bool
  pub cookies_collected : Bool
  pub content_length : ℤ
  pub content_length_bytes : Bytes
  pub method : Bytes
  pub request_uri : Bytes
  pub proto : Bytes
  pub host : Bytes
  pub content_type : Bytes
  pub user_agent : Bytes
  pub h : Slots
  pub cookies : Slots
  pub raw_headers : Bytes

-- `resetSkipNormalize`.
unfoldable pub reset_skip_normalize : RequestHeader → RequestHeader
unfolding justhttp.Args.Slots.reset
reset_skip_normalize r = record {
  disable_normalizing = r.disable_normalizing;
  no_http11 = false;
  connection_close = false;
  cookies_collected = false;
  content_length = pos 0;
  content_length_bytes = [];
  method = [];
  request_uri = [];
  proto = [];
  host = [];
  content_type = [];
  user_agent = [];
  h = justhttp.Args.Slots.reset r.h;
  cookies = justhttp.Args.Slots.reset r.cookies;
  raw_headers = [];
}

-- `RequestHeader.Reset`.
unfoldable pub reset : RequestHeader → RequestHeader
unfolding reset_skip_normalize
reset r = reset_skip_normalize (record r { disable_normalizing = false })

-- `r.CopyTo(dst)`, for two objects.
unfoldable pub copy_to : RequestHeader → RequestHeader → RequestHeader
unfolding reset justhttp.Args.Store.copy_to
copy_to r dst = record r {
  h = justhttp.Args.Store.copy_to r.h.visible (reset dst).h;
  cookies = justhttp.Args.Store.copy_to r.cookies.visible (reset dst).cookies;
}

unfoldable pub set_connection_close : RequestHeader → RequestHeader
set_connection_close r = record r { connection_close = true }

unfoldable pub reset_connection_close : RequestHeader → RequestHeader
unfolding justhttp.Args.Store.del_all_args
reset_connection_close r =
    if r.connection_close
    then record r {
      connection_close = false;
      h = justhttp.Args.Store.del_all_args r.h (codes "Connection");
    }
    else r

-- `SetContentLength`; `none` is the panic of `AppendUint`.
unfoldable pub set_content_length : RequestHeader → ℤ → Option RequestHeader
unfolding append_uint justhttp.Args.Store.del_all_args justhttp.Args.Store.set_arg
set_content_length r (pos n) = append_uint [] n then_if_done λ text. some (record r {
  content_length = pos n;
  content_length_bytes = text;
  h = justhttp.Args.Store.del_all_args r.h (codes "Transfer-Encoding");
})
set_content_length r (negsuc n) = some (record r {
  content_length = negsuc n;
  content_length_bytes = [];
  h = justhttp.Args.Store.set_arg r.h (codes "Transfer-Encoding") (codes "chunked") false;
})

unfoldable pub set_content_type : RequestHeader → Bytes → RequestHeader
set_content_type r b = record r { content_type = b }

unfoldable pub set_multipart_form_boundary : RequestHeader → Bytes → RequestHeader
unfolding set_content_type
set_multipart_form_boundary r boundary =
    set_content_type r (codes "multipart/form-data; boundary=" ++ boundary)

unfoldable pub set_host : RequestHeader → Bytes → RequestHeader
set_host r b = record r { host = b }

unfoldable pub set_user_agent : RequestHeader → Bytes → RequestHeader
set_user_agent r b = record r { user_agent = b }

-- `Method`.
unfoldable pub method_of : RequestHeader → Bytes
method_of r = if length r.method == 0 then codes "GET" else r.method

unfoldable pub set_method : RequestHeader → Bytes → RequestHeader
set_method r b = record r { method = b }

-- `Protocol`.
unfoldable pub protocol_of : RequestHeader → Bytes
protocol_of r = if length r.proto == 0 then codes "HTTP/1.1" else r.proto

unfoldable pub set_protocol : RequestHeader → Bytes → RequestHeader
unfolding equal
set_protocol r b = record r { proto = b; no_http11 = not (equal b (codes "HTTP/1.1")) }

-- `RequestURI`.
unfoldable pub request_uri_of : RequestHeader → Bytes
request_uri_of r = if length r.request_uri == 0 then codes "/" else r.request_uri

unfoldable pub set_request_uri : RequestHeader → Bytes → RequestHeader
set_request_uri r b = record r { request_uri = b }

-- `ignoreBody`: `IsGet() || IsHead()`.
unfoldable pub ignore_body : RequestHeader → Bool
unfolding method_of equal
ignore_body r = equal (method_of r) (codes "GET") || equal (method_of r) (codes "HEAD")
