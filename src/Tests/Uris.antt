-- ===== src/Tests/Uris.antt =====
-- URIs: uri.go.
use justhttp.Base.{◌≡◌, refl, true, false, some, [], arith, All, codes, index_byte, index_byte-none}
use justhttp.Base.Search.{has_prefix, index, last_index, last_index_byte}
use justhttp.Bytesconv.Tables.{hex2int, join_hex}
use justhttp.Bytesconv.Quote.{decode_slow, decode_arg_append_no_plus}
use justhttp.Uri.Path.{normalize_path}
use justhttp.Uri.Path.Loops.{Ends}
use justhttp.Uri.Path.Normal.{IsNormal, normalize_path-IsNormal}
use justhttp.Uri.State.{Uri}
use justhttp.Uri.Parse.{parse}
use justhttp.Uri.Laws.{IsPrintable, parse_lem}

normalize_path_run : normalize_path (codes "a//b/./c/../%2e%2E") ≡ some (codes "/a/")
unfolding normalize_path decode_arg_append_no_plus index_byte decode_slow hex2int index has_prefix
    join_hex last_index_byte last_index
normalize_path_run = refl

normalize_path_root : normalize_path (codes "/..") ≡ some (codes "/")
unfolding normalize_path decode_arg_append_no_plus index_byte decode_slow hex2int index has_prefix
    join_hex last_index_byte last_index
normalize_path_root = refl

normalize_path-IsNormal_example : Ends (normalize_path (codes "a//b/./c/../%2e%2E")) IsNormal
normalize_path-IsNormal_example = normalize_path-IsNormal (codes "a//b/./c/../%2e%2E")

abbrev empty_uri : Uri
empty_uri = record {
  path_original = [];
  scheme = [];
  path = [];
  query_string = [];
  hash = [];
  host = [];
  query_args = record { visible = []; spare = [] };
  parsed_query_args = false;
  disable_path_normalizing = false;
  username = [];
  password = [];
}

uri-IsPrintable : All IsPrintable (codes "/a?x#h")
uri-IsPrintable = (
  (omega arith, λ e. ground (arith, e)),
  (
    (omega arith, λ e. ground (arith, e)),
    (
      (omega arith, λ e. ground (arith, e)),
      (
        (omega arith, λ e. ground (arith, e)),
        ((omega arith, λ e. ground (arith, e)), ((omega arith, λ e. ground (arith, e)), tt)),
      ),
    ),
  ),
)

parse_lem_example :
    (v : Uri) × (parse empty_uri (codes "host") (codes "/a?x#h") false ≡ some (v, true))
    × (v.path_original ≡ codes "/a")
    × (v.query_string ≡ codes "x")
    × (v.hash ≡ codes "h")
unfolding index_byte index has_prefix
parse_lem_example =
    parse_lem empty_uri (codes "host") (codes "/a") (codes "x") (codes "h") false (omega arith)
      (index_byte-none (codes "/a") b'?' refl) (index_byte-none (codes "/a") b'#' refl)
      (index_byte-none (codes "x") b'#' refl) uri-IsPrintable refl
