-- ===== src/Uri/Parse.antt =====
-- `URI.Parse` and `splitHostURI` of uri.go.
use justhttp.Base.{
  ℕ, ◌+◌, Bool, true, false, not, ◌||◌, Option, none, some, [], ◌∷◌, ltb, ◌==◌, if◌then◌else◌,
  length, take, drop, Bytes, codes, index_byte, is_none,
}
use justhttp.Base.Search.{index}
use justhttp.Uri.Path.{normalize_path, ◌then_if_done◌}
use justhttp.Uri.State.{Uri, reset, lowercase_bytes}

unfoldable pub string_contains_ctl_byte : Bytes → Bool
string_contains_ctl_byte [] = false
string_contains_ctl_byte (b ∷ s) =
    if ltb b b' ' || b == 127 then true else string_contains_ctl_byte s

-- `scheme[:len(scheme)-1]` if the scheme ends with a ':'.
unfoldable pub cut_colon : Bytes → Bytes
cut_colon [] = []
cut_colon (c ∷ []) = if c == b':' then [] else c ∷ []
cut_colon (c ∷ d ∷ s) = c ∷ cut_colon (d ∷ s)

-- The host and the rest of what stands behind "//", by the indices of its first '/' and its first
-- '?'; -1 is `none`.
unfoldable pub cut_host : Bytes → Option ℕ → Option ℕ → Bytes × Bytes
cut_host uri (some n) (some nq) =
    if ltb nq n then (take nq uri, drop nq uri) else (take n uri, drop n uri)
cut_host uri (some n) none = (take n uri, drop n uri)
cut_host uri none (some nq) = (take nq uri, drop nq uri)
cut_host uri none none = (uri, codes "/")

-- The scheme, the host and the rest.
unfoldable pub split_host_uri : Bytes → Bytes → Bytes × Bytes × Bytes
unfolding cut_host cut_colon
split_host_uri host uri = elim (index (codes "//") uri) [
  | none ↦ (codes "http", host, uri)
  | some n ↦
      let rest = drop (n + 2) uri in
      if not (is_none (index_byte (take n uri) b'/')) then (codes "http", host, uri) else (
        cut_colon (take n uri),
        (cut_host rest (index_byte rest b'/') (index_byte rest b'?')).0,
        (cut_host rest (index_byte rest b'/') (index_byte rest b'?')).1,
      )
]

-- `queryIndex`, where a '?' in the fragment does not count.
unfoldable pub query_index : Bytes → Option ℕ
query_index b = elim (index_byte b b'#') [
  | none ↦ index_byte b b'?'
  | some fragment ↦ (elim (index_byte b b'?') [
    | none ↦ none
    | some query ↦ if ltb fragment query then none else some query
  ])
]

-- The path, the query string and the hash, by `queryIndex` and `fragmentIndex`.
unfoldable pub cut_target : Bytes → Option ℕ → Option ℕ → Bytes × Bytes × Bytes
cut_target b none none = (b, [], [])
cut_target b (some q) none = (take q b, drop (q + 1) b, [])
cut_target b (some q) (some f) = (take q b, drop (q + 1) (take f b), drop (f + 1) b)
cut_target b none (some f) = (take f b, [], drop (f + 1) b)

-- The user's name, the password and the host proper.
unfoldable pub cut_auth : Bytes → Bytes × Bytes × Bytes
cut_auth host = elim (index_byte host b'@') [
  | none ↦ ([], [], host)
  | some n ↦ (elim (index_byte (take n host) b':') [
    | none ↦ (take n host, [], drop (n + 1) host)
    | some m ↦ (take m (take n host), drop (m + 1) (take n host), drop (n + 1) host)
  ])
]

-- `URI.parse` behind the tests on the scheme.
unfoldable pub parse_parts : Uri → Bytes → Bytes → Bytes → Option Uri
unfolding cut_auth cut_target query_index normalize_path lowercase_bytes
parse_parts u scheme host uri =
    let auth = cut_auth host in
    let target = cut_target uri (query_index uri) (index_byte uri b'#') in
    normalize_path target.0 then_if_done λ normal. some (record u {
      scheme = scheme;
      username = auth.0;
      password = auth.1;
      host = lowercase_bytes auth.2;
      path_original = target.0;
      path = normal;
      query_string = target.1;
      hash = target.2;
    })

-- `URI.parse`, with whether the URI is valid.
unfoldable pub parse : Uri → Bytes → Bytes → Bool → Option (Uri × Bool)
unfolding parse_parts split_host_uri string_contains_ctl_byte reset
parse u host uri is_tls =
    let absolute = length host == 0 || not (is_none (index (codes "://") uri)) in
    let split : Bytes × Bytes × Bytes =
      if absolute then split_host_uri host uri else ([], host, uri) in
    let scheme : Bytes = if is_tls then codes "https" else lowercase_bytes split.0 in
    if string_contains_ctl_byte uri
    then some (reset u, false)
    else (parse_parts (reset u) scheme split.1 split.2 then_if_done λ parsed. some (parsed, true))
