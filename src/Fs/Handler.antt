-- ===== src/Fs/Handler.antt =====
-- The handler of a request for a static file. The sections under `cacheLock` follow one another as
-- if no other goroutine moved; Fs/Cache/System.antt has them in any order.
pub mod Readers
pub mod Opening
pub mod Served
pub mod Balance
pub mod Replies
use justhttp.Base.{
  ℕ, ◌+◌, ◌-◌, ◌/◌, ◌^◌, Bool, true, false, not, ◌&&◌, ◌||◌, Option, none, some, List, [], ◌∷◌,
  ◌++◌, ltb, ◌==◌, if◌then◌else◌, length, drop, Bytes, codes, Result, ok, err,
}
use justhttp.Base.Int.{ℤ, pos, negsuc, sub_ℕ}
use justhttp.Base.Search.{index}
use justhttp.ByteRange.{parse_byte_range}
use justhttp.Fs.Path.{nil_byte, dot_dot, has_trailing_slash, served_path}
use justhttp.Fs.Cache.{
  FsFile, FsHandler, Encoding, identity, brotli, gzip, find_file, new_file, add_file, release,
  dec_readers_count, is_big, new_reader, close_reader,
}
use justhttp.Fs.Reader.{SmallReader, behind, small_file_reader, update_byte_range}

-- The settings of an `fsHandler` that a request meets.
pub record Settings : Type 0 where
  pub root : Bytes
  pub index_names : List Bytes
  pub rewrites : Bool
  pub has_path_not_found : Bool
  pub generate_index_pages : Bool
  pub compress : Bool
  pub compress_brotli : Bool
  pub accept_byte_range : Bool

-- What a request asks: its path, rewritten if there is a `PathRewrite`, and three of its headers.
-- `opens`, `seeks` and `rewinds` tell whether `os.Open`, the `Seek` of `UpdateByteRange` and the
-- `Seek` of `Close` work for a big file.
pub record Asked : Type 0 where
  pub path : Bytes
  pub byte_range : Bytes
  pub accept_encoding : Bytes
  pub if_modified_since : Bytes
  pub is_head : Bool
  pub opens : Bool
  pub seeks : Bool
  pub rewinds : Bool

pub data OpenError : Type 0 where
  dir_index_required no_create_permission not_exist other : OpenError

-- `hasAcceptEncodingBytes`: the first place of the encoding in the header ends there or at a comma,
-- and is the first of all or stands behind a space.
unfoldable pub has_accept_encoding : Bytes → Bytes → Bool
has_accept_encoding ae encoding = elim (index encoding ae) [
  | none ↦ false
  | some n ↦
      let b = drop (n + length encoding) ae in
      let ends : Bool = elim b [ [] ↦ true | c ∷ rest ↦ c == b',' ] in
      let starts : Bool = elim (drop (n - 1) ae) [ [] ↦ false | c ∷ rest ↦ c == 32 ] in
      ends && (n == 0 || starts)
]

-- `fileEncoding`, which tells `mustCompress` and `fileCache` too.
unfoldable pub file_encoding : Settings → Asked → Encoding
unfolding has_accept_encoding
file_encoding s a =
    if length a.byte_range == 0 && s.compress
    then (if s.compress_brotli && has_accept_encoding a.accept_encoding (codes "br")
        then brotli
        else if has_accept_encoding a.accept_encoding (codes "gzip")
        then gzip
        else identity)
    else identity

abbrev pub must_compress : Encoding → Bool
must_compress identity = false
must_compress brotli = true
must_compress gzip = true

-- What is answered with a file: `start_pos` and `end_pos` are those of the reader.
pub record Answer : Type 0 where
  pub file : ℕ
  pub status_code : ℕ
  pub content_length : ℤ
  pub reader : SmallReader
  pub content_range : Option (ℕ × ℤ)
  pub content_encoding : Encoding
  pub streamed : Bool

-- `failed` is an answer of `ctx.Error` with a status, `redirected` one of `RedirectBytes`.
pub data Reply : Type 0 where
  failed : ℕ → Reply
  path_not_found : Reply
  redirected : Bytes → Reply
  not_modified : Reply
  answered : Answer → Reply

-- `endPos - startPos + 1`.
abbrev pub span : ℕ → ℤ → ℤ
span start (pos last) = sub_ℕ (last + 1) start
span start (negsuc n) = sub_ℕ 0 (n + start)

-- `IfModifiedSince`, with what `ParseHTTPDate` gives in seconds.
unfoldable pub if_modified_since : (Bytes → Option ℕ) → Bytes → ℕ → Bool
if_modified_since parse_http_date [] last_modified = true
if_modified_since parse_http_date (c ∷ b) last_modified = elim (parse_http_date (c ∷ b)) [
  | none ↦ true
  | some since ↦ ltb since (last_modified / 10 ^ 9)
]

-- The end of `handleRequest`, with a reader.
unfoldable pub answer : FsHandler → ℕ → Asked → Answer → Option (FsHandler × Reply)
unfolding close_reader is_big
answer h i a r =
    let seek_fails = is_big (h.files i) && not a.rewinds in
    if not a.is_head then some (h, answered r) else (elim (close_reader h i a.rewinds) [
      | none ↦ none
      | some c ↦
          some (c, if seek_fails then failed 500 else answered (record r { streamed = false }))
    ])

-- A failure that closes the reader first.
unfoldable pub give_up : FsHandler → ℕ → Asked → ℕ → Option (FsHandler × Reply)
unfolding close_reader
give_up h i a status_code = elim (close_reader h i a.rewinds) [
  | none ↦ none
  | some c ↦ some (c, failed status_code)
]

-- The answer with the whole file.
unfoldable pub whole : FsFile → ℕ → Encoding → Answer
unfolding small_file_reader
whole f i encoding = record {
  file = i;
  status_code = 200;
  content_length = pos f.content_length;
  reader = small_file_reader f.content_length;
  content_range = none;
  content_encoding = if f.compressed then encoding else identity;
  streamed = true;
}

-- The answer with a range of the file. `SetContentRange` panics where the last position is -1.
unfoldable pub answer_part : FsHandler → ℕ → Asked → Answer → ℕ → ℤ → Option (FsHandler × Reply)
unfolding answer update_byte_range
answer_part h i a r start (negsuc n) = none
answer_part h i a r start (pos last) = answer h i a (record r {
  status_code = 206;
  content_length = span start (pos last);
  reader = update_byte_range r.reader start (pos last);
  content_range = some (start, pos last);
})

-- The part on byte ranges; `none` is a panic.
unfoldable pub answer_range : FsHandler → ℕ → Settings → Asked → Answer → Option (FsHandler × Reply)
unfolding answer answer_part give_up parse_byte_range is_big
answer_range h i s a r =
    let f = h.files i in
    if s.accept_byte_range && ltb 0 (length a.byte_range)
    then (elim (parse_byte_range a.byte_range f.content_length) [
      | err e ↦ give_up h i a 416
      | ok (start, last) ↦
          if is_big f && not a.seeks then give_up h i a 500 else answer_part h i a r start last
    ])
    else answer h i a r

-- From the file to the end: `none` is a panic.
unfoldable pub serve :
    (Bytes → Option ℕ) → FsHandler → ℕ → Settings → Asked → Encoding → Option (FsHandler × Reply)
unfolding if_modified_since dec_readers_count new_reader answer_range whole
serve parse_http_date h i s a encoding =
    if not (if_modified_since parse_http_date a.if_modified_since (h.files i).last_modified)
    then (elim (dec_readers_count h i) [ none ↦ none | some d ↦ some (d, not_modified) ])
    else (elim (new_reader h i a.opens) [
      | none ↦ none
      | some (h', false) ↦ some (h', failed 500)
      | some (h', true) ↦ answer_range h' i s a (whole (h.files i) i encoding)
    ])

-- A file that was opened, with a reader counted. Where another goroutine was first, it is released
-- for the other's.
unfoldable pub keep_opened :
    FsHandler → Encoding → Bytes → Result Reply FsFile → FsHandler × Result Reply ℕ
unfolding new_file add_file release
keep_opened h encoding path (err r) = (h, err r)
keep_opened h encoding path (ok f) =
    let (opened, i) = new_file h f in
    let (stored, j) = add_file opened encoding path i in
    (if i == j then stored else release stored i, ok j)

-- The system's files, and what the code outside the model makes of them, by their paths.
module _ (open_fs_file : Bytes → Bool → Encoding → Result OpenError FsFile)
    (create_dir_index : Bytes → Bool → Encoding → Result OpenError FsFile)
    (parse_http_date : Bytes → Option ℕ) where
  -- `openIndexFile`.
  unfoldable pub open_index_file :
      Settings → List Bytes → Bytes → Bool → Encoding → Result OpenError FsFile
  open_index_file s [] dir_path compressed encoding =
      if s.generate_index_pages then create_dir_index dir_path compressed encoding else err other
  open_index_file s (name ∷ names) dir_path compressed encoding =
      elim (open_fs_file (dir_path ++ b'/' ∷ name) compressed encoding) [
        | ok f ↦ ok f
        | err not_exist ↦ open_index_file s names dir_path compressed encoding
        | err dir_index_required ↦ err other
        | err no_create_permission ↦ err other
        | err other ↦ err other
      ]

  -- `openFSFile`, twice where the compressed file cannot be created: the error, and the
  -- `mustCompress` with which it goes on.
  unfoldable pub open_twice : Bytes → Encoding → Result (OpenError × Bool) FsFile
  open_twice file_path encoding = elim (open_fs_file file_path (must_compress encoding) encoding) [
    | ok f ↦ ok f
    | err no_create_permission ↦
        if must_compress encoding
        then (elim (open_fs_file file_path false encoding) [ ok f ↦ ok f | err e ↦ err (e, false) ])
        else err (no_create_permission, false)
    | err dir_index_required ↦ err (dir_index_required, must_compress encoding)
    | err not_exist ↦ err (not_exist, must_compress encoding)
    | err other ↦ err (other, must_compress encoding)
  ]

  -- What is answered to an error other than `errDirIndexRequired`.
  abbrev pub not_found : Settings → Reply
  not_found s = if s.has_path_not_found then path_not_found else failed 404

  -- A file for a path that is not cached, or the reply that is given without one.
  unfoldable pub open_path : Settings → Bytes → Bool → Encoding → Result Reply FsFile
  unfolding open_index_file open_twice
  open_path s path trailing encoding = elim (open_twice (s.root ++ path) encoding) [
    | ok f ↦ ok f
    | err (dir_index_required, compressed) ↦
        if not trailing
        then err (redirected (path ++ b'/' ∷ []))
        else (elim (open_index_file s s.index_names (s.root ++ path) compressed encoding) [
          | ok f ↦ ok f
          | err e ↦ err (failed 403)
        ])
    | err (no_create_permission, compressed) ↦ err (not_found s)
    | err (not_exist, compressed) ↦ err (not_found s)
    | err (other, compressed) ↦ err (not_found s)
  ]

  -- The file to serve, with a reader counted: cached, or opened.
  unfoldable pub file_for :
      FsHandler → Settings → Bytes → Bool → Encoding → FsHandler × Result Reply ℕ
  unfolding find_file keep_opened open_path
  file_for h s path trailing encoding =
      let (h', cached) = find_file h encoding path in
      elim cached [
        | some i ↦ (h', ok i)
        | none ↦ keep_opened h' encoding path (open_path s path trailing encoding)
      ]

  -- `handleRequest`; `none` is a panic.
  unfoldable pub handle_request : FsHandler → Settings → Asked → Option (FsHandler × Reply)
  unfolding has_trailing_slash served_path file_encoding file_for serve
  handle_request h s a = elim (served_path s.rewrites a.path) [
    | err nil_byte ↦ some (h, failed 400)
    | err dot_dot ↦ some (h, failed 500)
    | ok path ↦
        let encoding = file_encoding s a in
        let (h', found) = file_for h s path (has_trailing_slash a.path) encoding in
        elim found [ err r ↦ some (h', r) | ok i ↦ serve parse_http_date h' i s a encoding ]
  ]
