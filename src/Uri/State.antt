-- ===== src/Uri/State.antt =====
-- The fields of a URI and the methods that set them, uri.go. The buffers `fullURI` and `requestURI`
-- are written anew by each call that returns them, and are no part of the state. A method on a
-- string and its twin on bytes are one function.
use justhttp.Base.{Bool, false, Option, some, [], ◌∷◌, ◌==◌, if◌then◌else◌, length, Bytes, codes}
use justhttp.Args.Slots.{ArgsKv, Slots}
use justhttp.Args.Slots
use justhttp.Args.Store
use justhttp.Bytesconv.Tables.{to_lower_table}
use justhttp.Uri.Path.{normalize_path, ◌then_if_done◌}

-- `lowercaseBytes` of bytesconv.go.
unfoldable pub lowercase_bytes : Bytes → Bytes
unfolding to_lower_table
lowercase_bytes [] = []
lowercase_bytes (c ∷ b) = to_lower_table c ∷ lowercase_bytes b

pub record Uri : Type 0 where
  pub path_original : Bytes
  pub scheme : Bytes
  pub path : Bytes
  pub query_string : Bytes
  pub hash : Bytes
  pub host : Bytes
  pub query_args : Slots
  pub parsed_query_args : Bool
  pub disable_path_normalizing : Bool
  pub username : Bytes
  pub password : Bytes

-- `URI.Reset`.
unfoldable pub reset : Uri → Uri
unfolding justhttp.Args.Slots.reset
reset u = record {
  path_original = [];
  scheme = [];
  path = [];
  query_string = [];
  hash = [];
  host = [];
  query_args = justhttp.Args.Slots.reset u.query_args;
  parsed_query_args = false;
  disable_path_normalizing = false;
  username = [];
  password = [];
}

-- `u.CopyTo(dst)`, for two objects.
unfoldable pub copy_to : Uri → Uri → Uri
unfolding justhttp.Args.Slots.reset justhttp.Args.Store.copy_to
copy_to u dst = record u {
  query_args = justhttp.Args.Store.copy_to u.query_args.visible (reset dst).query_args;
}

unfoldable pub set_hash : Uri → Bytes → Uri
set_hash u b = record u { hash = b }

unfoldable pub set_username : Uri → Bytes → Uri
set_username u b = record u { username = b }

unfoldable pub set_password : Uri → Bytes → Uri
set_password u b = record u { password = b }

unfoldable pub set_query_string : Uri → Bytes → Uri
set_query_string u b = record u { query_string = b; parsed_query_args = false }

unfoldable pub set_path : Uri → Bytes → Option Uri
unfolding normalize_path
set_path u b =
    normalize_path b then_if_done λ normal. some (record u { path_original = b; path = normal })

unfoldable pub set_scheme : Uri → Bytes → Uri
unfolding lowercase_bytes
set_scheme u b = record u { scheme = lowercase_bytes b }

unfoldable pub set_host : Uri → Bytes → Uri
unfolding lowercase_bytes
set_host u b = record u { host = lowercase_bytes b }

-- The field `path`, or "/" if it is empty.
unfoldable pub path_of : Uri → Bytes
path_of u = if length u.path == 0 then codes "/" else u.path

unfoldable pub scheme_of : Uri → Bytes
scheme_of u = if length u.scheme == 0 then codes "http" else u.scheme
