-- ===== src/Uri/Laws.antt =====
-- What `URI.Parse` gives.
use justhttp.Base.{
  ℕ, suc, ◌+◌, ◌≤◌, ◌<◌, ◌≡◌, refl, sym, ◌≢◌, Bool, true, false, none, some, [], ◌∷◌, ◌++◌,
  append_assoc, arith, ◌==◌, if◌then◌else◌, length, take, drop, length-append, All, All-append,
  Bytes, codes, Lacks, index_byte, index_byte-append, take-length-append, drop-length-append,
}
use justhttp.Base.Search.{index}
use justhttp.Uri.Path.Normal.{normalize_path-IsNormal}
use justhttp.Uri.State.{Uri, reset, lowercase_bytes}
use justhttp.Uri.Parse.{
  string_contains_ctl_byte, query_index, cut_target, cut_auth, parse_parts, parse,
}

-- A byte that is no control character.
abbrev pub IsPrintable : ℕ → Type 0
IsPrintable c = (32 ≤ c) × (c ≢ 127)

string_contains_ctl_byte-printable :
    (s : Bytes) → All IsPrintable s → string_contains_ctl_byte s ≡ false
unfolding string_contains_ctl_byte
string_contains_ctl_byte-printable [] a = refl
string_contains_ctl_byte-printable (c ∷ s) ((low, del), a) =
    ground (arith, string_contains_ctl_byte-printable s a, low, del)

module _ (path query hash : Bytes) where
  abbrev joined : Bytes
  joined = path ++ b'?' ∷ (query ++ b'#' ∷ hash)

  joined_assoc : joined ≡ (path ++ b'?' ∷ query) ++ b'#' ∷ hash
  joined_assoc = sym (append_assoc path (b'?' ∷ query) (b'#' ∷ hash))

  hash_at :
      Lacks b'#' path
      → Lacks b'#' query
      → index_byte joined b'#' ≡ some (length (path ++ b'?' ∷ query))
  hash_at hp hq = rw joined_assoc (
      index_byte-append (path ++ b'?' ∷ query) hash b'#'
        (All-append (λ c. c ≢ b'#') path (b'?' ∷ query) hp ((λ e. ground arith), hq)))

  query_index-joined :
      Lacks b'?' path → Lacks b'#' path → Lacks b'#' query → query_index joined ≡ some (length path)
  unfolding query_index
  query_index-joined hm hp hq = ground (
    arith,
    hash_at hp hq,
    index_byte-append path (query ++ b'#' ∷ hash) b'?' hm,
    length-append path (b'?' ∷ query),
  )

  query_part : drop (length path + 1) (take (length (path ++ b'?' ∷ query)) joined) ≡ query
  query_part =
      let e : length path + 1 ≡ suc (length path) = omega arith in
      rw (e, joined_assoc, take-length-append (path ++ b'?' ∷ query) (b'#' ∷ hash))
        (drop-length-append path b'?' query)

  hash_part : drop (length (path ++ b'?' ∷ query) + 1) joined ≡ hash
  hash_part =
      let e : length (path ++ b'?' ∷ query) + 1 ≡ suc (length (path ++ b'?' ∷ query)) =
        omega arith in
      rw (e, joined_assoc) (drop-length-append (path ++ b'?' ∷ query) b'#' hash)

-- A path, a query string and a hash, with no '?' or '#' in the path and no '#' in the query string,
-- are found again where a '?' and a '#' join them.
pub cut_target-join :
    (path query hash : Bytes)
    → Lacks b'?' path
    → Lacks b'#' path
    → Lacks b'#' query
    → let uri = path ++ b'?' ∷ (query ++ b'#' ∷ hash) in
      cut_target uri (query_index uri) (index_byte uri b'#') ≡ (path, query, hash)
unfolding cut_target
cut_target-join path query hash no_mark no_hash query_no_hash = ground (
  arith,
  query_index-joined path query hash no_mark no_hash query_no_hash,
  hash_at path query hash no_hash query_no_hash,
  take-length-append path (b'?' ∷ (query ++ b'#' ∷ hash)),
  query_part path query hash,
  hash_part path query hash,
)

parse_parts-target :
    (u : Uri) (scheme host path query hash : Bytes)
    → Lacks b'?' path
    → Lacks b'#' path
    → Lacks b'#' query
    → (v : Uri) × (parse_parts u scheme host (path ++ b'?' ∷ (query ++ b'#' ∷ hash)) ≡ some v)
      × (v.path_original ≡ path)
      × (v.query_string ≡ query)
      × (v.hash ≡ hash)
unfolding parse_parts
parse_parts-target u scheme host path query hash no_mark no_hash query_no_hash =
    let cut = cut_target-join path query hash no_mark no_hash query_no_hash in
    let (normal, e, is_normal) = normalize_path-IsNormal path in
    let auth = cut_auth host in
    let v : Uri = record u {
      scheme = scheme;
      username = auth.0;
      password = auth.1;
      host = lowercase_bytes auth.2;
      path_original = path;
      path = normal;
      query_string = query;
      hash = hash;
    } in
    (v, rw (parse_parts, cut, e) refl, refl, refl, refl)

-- A URI that is parsed for a host, has no "://" in it, no byte below 32 and no 127, and is a path, a
-- '?', a query string, a '#' and a hash, where the path has none of the two and the query string no
-- '#', is accepted, and `URI.Parse` leaves these three parts.
pub parse_lem :
    (u : Uri) (host path query hash : Bytes) (is_tls : Bool)
    → 0 < length host
    → Lacks b'?' path
    → Lacks b'#' path
    → Lacks b'#' query
    → let uri = path ++ b'?' ∷ (query ++ b'#' ∷ hash) in
      All IsPrintable uri
      → index (codes "://") uri ≡ none
      → (v : Uri) × (parse u host uri is_tls ≡ some (v, true))
        × (v.path_original ≡ path)
        × (v.query_string ≡ query)
        × (v.hash ≡ hash)
unfolding parse
parse_lem u host path query hash is_tls pos no_mark no_hash query_no_hash printable relative =
    let uri = path ++ b'?' ∷ (query ++ b'#' ∷ hash) in
    let clean = string_contains_ctl_byte-printable uri printable in
    let named : (length host == 0) ≡ false = ground (arith, pos) in
    let (v, parsed, p, q, h) =
      parse_parts-target (reset u) (if is_tls then codes "https" else lowercase_bytes []) host path
        query hash no_mark no_hash query_no_hash in
    (v, rw (parse, named, relative, clean) (rw parsed refl), p, q, h)
