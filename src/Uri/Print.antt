-- ===== src/Uri/Print.antt =====
-- How a URI is written, and how it is updated from a reference: uri.go.
use justhttp.Base.{
  ◌+◌, true, false, not, ◌&&◌, Option, none, some, [], ◌∷◌, ◌++◌, ltb, ◌==◌, if◌then◌else◌, length,
  take, drop, Bytes, codes, is_none,
}
use justhttp.Base.Search.{index, last_index_byte}
use justhttp.Args.Query.{append_bytes}
use justhttp.Args.Scanner.{parse_bytes}
use justhttp.Bytesconv.Quote.{append_quoted_path}
use justhttp.Uri.Path.{◌then_if_done◌}
use justhttp.Uri.State.{Uri, set_hash, set_query_string, path_of, scheme_of}
use justhttp.Uri.Parse.{parse}

unfoldable pub request_uri : Uri → Bytes
unfolding append_bytes append_quoted_path path_of
request_uri u =
    let dst : Bytes =
      if u.disable_path_normalizing then u.path_original else append_quoted_path [] (path_of u) in
    if u.parsed_query_args && ltb 0 (length u.query_args.visible)
    then append_bytes (dst ++ b'?' ∷ []) u.query_args.visible
    else if ltb 0 (length u.query_string)
    then (dst ++ b'?' ∷ []) ++ u.query_string
    else dst

unfoldable pub append_scheme_host : Uri → Bytes → Bytes
unfolding scheme_of
append_scheme_host u dst = ((dst ++ scheme_of u) ++ codes "://") ++ u.host

-- `URI.AppendBytes`.
unfoldable pub append_uri : Uri → Bytes → Bytes
unfolding append_scheme_host request_uri
append_uri u dst =
    let target = append_scheme_host u dst ++ request_uri u in
    if ltb 0 (length u.hash) then (target ++ b'#' ∷ []) ++ u.hash else target

unfoldable pub full_uri : Uri → Bytes
unfolding append_uri
full_uri u = append_uri u []

unfoldable pub last_path_segment : Uri → Bytes
unfolding path_of
last_path_segment u = elim (last_index_byte (path_of u) b'/') [
  | none ↦ path_of u
  | some n ↦ drop (n + 1) (path_of u)
]

unfoldable pub parse_query_args : Uri → Option Uri
unfolding parse_bytes
parse_query_args u =
    if u.parsed_query_args
    then some u
    else (parse_bytes u.query_args u.query_string then_if_done λ args.
        some (record u { query_args = args; parsed_query_args = true }))

-- What an update does: `done` with the URI, which a refused reference leaves empty; `panics`; or
-- `unfinished`, a loop that has run out of its bound.
pub data Updated : Type 0 where
  done : Uri → Updated
  panics unfinished : Updated

-- `u.Parse(nil, uri)`; what it tells of an error is dropped.
unfoldable pub parse_again : Uri → Bytes → (Uri → Uri) → Updated
unfolding parse
parse_again u uri f = elim (parse u [] uri false) [
  | none ↦ unfinished
  | some (parsed, valid) ↦ done (if valid then f parsed else parsed)
]

-- Keeps the scheme that stood before, if there is no new one.
unfoldable pub keep_scheme : Bytes → Uri → Uri
keep_scheme original u =
    if ltb 0 (length original) && length u.scheme == 0 then record u { scheme = original } else u

-- The update of the last part of the path.
unfoldable pub update_path : Uri → Bytes → Updated
unfolding parse_again append_scheme_host append_quoted_path path_of
update_path u new_uri = elim (last_index_byte (path_of u) b'/') [
  | none ↦ panics
  | some n ↦
      parse_again u
        (append_quoted_path (append_scheme_host u []) (take (n + 1) (path_of u)) ++ new_uri)
        (λ v. v)
]

-- `updateBytes`, the buffer apart.
unfoldable pub update_bytes : Uri → Bytes → Updated
unfolding update_path parse_again keep_scheme append_scheme_host set_hash set_query_string
update_bytes u [] = done u
update_bytes u (c ∷ new_uri) =
    if not (is_none (index (codes "//") (c ∷ new_uri)))
    then parse_again u (c ∷ new_uri) (keep_scheme u.scheme)
    else if c == b'/'
    then parse_again u (append_scheme_host u [] ++ c ∷ new_uri) (λ v. v)
    else if c == b'?'
    then done (set_query_string u new_uri)
    else if c == b'#'
    then done (set_hash u new_uri)
    else update_path u (c ∷ new_uri)
