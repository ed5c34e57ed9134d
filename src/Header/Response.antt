-- ===== src/Header/Response.antt =====
-- The header of a response, header.go: its fields and the methods that set one of them. As for
-- requests, `bufKV` and `secureErrorLogMessage` are no part of the state.
pub mod Fields
pub mod Print
pub mod Parse
use justhttp.Base.{
  zero, suc, Bool, true, false, not, ◌&&◌, ◌||◌, Option, some, [], ltb, ◌==◌, if◌then◌else◌, length,
  Bytes, codes,
}
use Prim.Native.String.{String}
use justhttp.Base.Int.{ℤ, pos, negsuc}
use justhttp.Base.Search.{has_prefix}
use justhttp.Args.Slots.{Slots}
use justhttp.Args.Store
use justhttp.Bytesconv.Uint.{append_uint}
use justhttp.Uri.Path.{◌then_if_done◌}

pub record ResponseHeader : Type 0 where
  pub disable_normalizing : Bool
  pub no_http11 : Bool
  pub connection_close : Bool
  pub no_default_content_type : Bool
  pub no_default_date : Bool
  pub status_code : ℤ
  pub content_length : ℤ
  pub content_length_bytes : Bytes
  pub content_type : Bytes
  pub server : Bytes
  pub h : Slots
  pub cookies : Slots

-- `resetSkipNormalize`.
unfoldable pub reset_skip_normalize : ResponseHeader → ResponseHeader
unfolding justhttp.Args.Slots.reset
reset_skip_normalize r = record {
  disable_normalizing = r.disable_normalizing;
  no_http11 = false;
  connection_close = false;
  no_default_content_type = r.no_default_content_type;
  no_default_date = r.no_default_date;
  status_code = pos 0;
  content_length = pos 0;
  content_length_bytes = [];
  content_type = [];
  server = [];
  h = justhttp.Args.Slots.reset r.h;
  cookies = justhttp.Args.Slots.reset r.cookies;
}

-- `ResponseHeader.Reset`.
unfoldable pub reset : ResponseHeader → ResponseHeader
unfolding reset_skip_normalize
reset r = reset_skip_normalize (record r {
  disable_normalizing = false;
  no_default_content_type = false;
  no_default_date = false;
})

-- `r.CopyTo(dst)`, for two objects.
unfoldable pub copy_to : ResponseHeader → ResponseHeader → ResponseHeader
unfolding reset justhttp.Args.Store.copy_to
copy_to r dst = record r {
  h = justhttp.Args.Store.copy_to r.h.visible (reset dst).h;
  cookies = justhttp.Args.Store.copy_to r.cookies.visible (reset dst).cookies;
}

-- `StatusCode`.
unfoldable pub status_code_of : ResponseHeader → ℤ
status_code_of r = elim r.status_code [
  | pos zero ↦ pos 200
  | pos (suc n) ↦ pos (suc n)
  | negsuc n ↦ negsuc n
]

unfoldable pub set_status_code : ResponseHeader → ℤ → ResponseHeader
set_status_code r n = record r { status_code = n }

unfoldable pub set_connection_close : ResponseHeader → ResponseHeader
set_connection_close r = record r { connection_close = true }

unfoldable pub reset_connection_close : ResponseHeader → ResponseHeader
unfolding justhttp.Args.Store.del_all_args
reset_connection_close r =
    if r.connection_close
    then record r {
      connection_close = false;
      h = justhttp.Args.Store.del_all_args r.h (codes "Connection");
    }
    else r

-- Whether a response with this code has no body: `mustSkipContentLength`.
unfoldable pub skips_length : ℤ → Bool
skips_length (negsuc n) = false
skips_length (pos n) = if ltb n 100 || n == 200 then false else n == 304 || n == 204 || ltb n 200

unfoldable pub must_skip_content_length : ResponseHeader → Bool
unfolding skips_length status_code_of
must_skip_content_length r = skips_length (status_code_of r)

abbrev managed : ResponseHeader → String → Slots
managed r value = justhttp.Args.Store.set_arg r.h (codes "Transfer-Encoding") (codes value) false

unfoldable pub write_content_length : ResponseHeader → ℤ → Option ResponseHeader
unfolding append_uint set_connection_close justhttp.Args.Store.del_all_args
    justhttp.Args.Store.set_arg
write_content_length r (pos n) = append_uint [] n then_if_done λ text. some (record r {
  content_length = pos n;
  content_length_bytes = text;
  h = justhttp.Args.Store.del_all_args r.h (codes "Transfer-Encoding");
})
write_content_length r (negsuc (suc zero)) = some (record (set_connection_close r) {
  content_length = negsuc 1;
  content_length_bytes = [];
  h = managed r "identity";
})
write_content_length r (negsuc n) =
    some
      (record r { content_length = negsuc n; content_length_bytes = []; h = managed r "chunked" })

-- `SetContentLength`; `none` is the panic of `AppendUint`.
unfoldable pub set_content_length : ResponseHeader → ℤ → Option ResponseHeader
unfolding must_skip_content_length write_content_length
set_content_length r n = if must_skip_content_length r then some r else write_content_length r n

-- `ContentType`.
unfoldable pub content_type_of : ResponseHeader → Bytes
content_type_of r =
    if not r.no_default_content_type && length r.content_type == 0
    then codes "text/plain; charset=utf-8"
    else r.content_type

unfoldable pub is_compressible_content_type : ResponseHeader → Bool
unfolding content_type_of has_prefix
is_compressible_content_type r =
    has_prefix (codes "text/") (content_type_of r)
    || has_prefix (codes "application/") (content_type_of r)

unfoldable pub set_content_type : ResponseHeader → Bytes → ResponseHeader
set_content_type r b = record r { content_type = b }

unfoldable pub set_server : ResponseHeader → Bytes → ResponseHeader
set_server r b = record r { server = b }
