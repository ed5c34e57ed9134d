-- ===== src/Fs/Cache.antt =====
-- The cache of open files of an `fsHandler`. A pointer to an `fsFile` is the number of the file in
-- the order of opening; each function that takes `cacheLock` is one section under it. A time is a
-- number of nanoseconds.
pub mod System
use justhttp.Base.{
  ℕ, ◌+◌, ◌-◌, ◌*◌, Bool, true, false, not, ◌&&◌, Option, none, some, List, [], ◌∷◌, ◌++◌, ltb,
  ◌==◌, if◌then◌else◌, length, Bytes, equal,
}

-- `has_file` tells that `f` is not nil, `big_files` is the number of the readers in `bigFiles`, and
-- `closed` tells that `Release` was called.
pub record FsFile : Type 0 where
  pub has_file : Bool
  pub dir_index : Bytes
  pub content_type : Bytes
  pub content_length : ℕ
  pub compressed : Bool
  pub last_modified : ℕ
  pub last_modified_str : Bytes
  pub t : ℕ
  pub readers_count : ℕ
  pub big_files : ℕ
  pub closed : Bool

abbrev pub FileCache : Type 0
FileCache = List (Bytes × ℕ)

-- `opened` is the number of the next file.
pub record FsHandler : Type 0 where
  pub files : ℕ → FsFile
  pub opened : ℕ
  pub cache : FileCache
  pub cache_brotli : FileCache
  pub cache_gzip : FileCache

-- The variable `fileEncoding` of `handleRequest`: "", "br" or "gzip".
pub data Encoding : Type 0 where
  identity brotli gzip : Encoding

abbrev pub cache_of : FsHandler → Encoding → FileCache
cache_of h identity = h.cache
cache_of h brotli = h.cache_brotli
cache_of h gzip = h.cache_gzip

abbrev pub with_cache : FsHandler → Encoding → FileCache → FsHandler
with_cache h identity c = record h { cache = c }
with_cache h brotli c = record h { cache_brotli = c }
with_cache h gzip c = record h { cache_gzip = c }

unfoldable pub lookup : Bytes → FileCache → Option ℕ
unfolding equal
lookup path [] = none
lookup path ((p, i) ∷ c) = if equal p path then some i else lookup path c

abbrev pub update : (ℕ → FsFile) → ℕ → FsFile → ℕ → FsFile
update files i f j = if i == j then f else files j

abbrev pub with_file : FsHandler → ℕ → FsFile → FsHandler
with_file h i f = record h { files = update h.files i f }

-- `readersCount++`.
abbrev pub add_reader : FsHandler → ℕ → FsHandler
add_reader h i =
    with_file h i (record (h.files i) { readers_count = (h.files i).readers_count + 1 })

-- The first section of `handleRequest`: the cached file, with one more reader.
unfoldable pub find_file : FsHandler → Encoding → Bytes → FsHandler × Option ℕ
unfolding lookup
find_file h encoding path = elim (lookup path (cache_of h encoding)) [
  | none ↦ (h, none)
  | some i ↦ (add_reader h i, some i)
]

-- A new `fsFile`, with its number.
unfoldable pub new_file : FsHandler → FsFile → FsHandler × ℕ
new_file h f = (record h { files = update h.files h.opened f; opened = h.opened + 1 }, h.opened)

-- The second section of `handleRequest`: a file is cached, unless the path has one by now. The
-- number is that of the file to serve.
unfoldable pub add_file : FsHandler → Encoding → Bytes → ℕ → FsHandler × ℕ
unfolding lookup
add_file h encoding path i = elim (lookup path (cache_of h encoding)) [
  | none ↦ (add_reader (with_cache h encoding ((path, i) ∷ cache_of h encoding)) i, i)
  | some j ↦ (add_reader h j, j)
]

-- `fsFile.Release`: `f` and the files of the big readers are closed.
unfoldable pub release : FsHandler → ℕ → FsHandler
release h i = with_file h i (record (h.files i) { closed = true })

-- `decReadersCount`; `none` is a panic.
unfoldable pub dec_readers_count : FsHandler → ℕ → Option FsHandler
dec_readers_count h i =
    if ltb 0 (h.files i).readers_count
    then some (with_file h i (record (h.files i) { readers_count = (h.files i).readers_count - 1 }))
    else none

-- `isBig`.
unfoldable pub is_big : FsFile → Bool
is_big f = ltb (2 * 4096) f.content_length && length f.dir_index == 0

-- What a `range` over the three lists of `cleanCache` comes to.
pub record Cleaned : Type 0 where
  pub remaining : FileCache
  pub pending_files : List ℕ
  pub files_to_release : List ℕ

-- `cleanCacheNolock` at the time `now`.
unfoldable pub clean_cache_nolock : (ℕ → FsFile) → ℕ → ℕ → FileCache → List ℕ → List ℕ → Cleaned
clean_cache_nolock files duration now [] pending_files files_to_release = record {
  remaining = [];
  pending_files = pending_files;
  files_to_release = files_to_release;
}
clean_cache_nolock files duration now ((path, i) ∷ cache) pending_files files_to_release =
    let stale = ltb duration (now - (files i).t) in
    let busy = ltb 0 (files i).readers_count in
    let rest =
      clean_cache_nolock files duration now cache
        (if stale && busy then pending_files ++ i ∷ [] else pending_files)
        (if stale && not busy then files_to_release ++ i ∷ [] else files_to_release) in
    if stale then rest else record rest { remaining = (path, i) ∷ rest.remaining }

-- The first loop of `cleanCache`: the files that remain, and those to release.
unfoldable pub split_pending : (ℕ → FsFile) → List ℕ → List ℕ × List ℕ
split_pending files [] = ([], [])
split_pending files (i ∷ pending_files) =
    let (remaining_files, files_to_release) = split_pending files pending_files in
    if ltb 0 (files i).readers_count
    then (i ∷ remaining_files, files_to_release)
    else (remaining_files, i ∷ files_to_release)

-- `cleanCache` under the lock, with the time of each of its three calls: the handler, with `pendingFiles` and `filesToRelease`.
unfoldable pub clean_cache : FsHandler → ℕ → (ℕ × ℕ × ℕ) → List ℕ → FsHandler × List ℕ × List ℕ
unfolding clean_cache_nolock split_pending
clean_cache h duration (now, now_br, now_gz) pending_files =
    let (remaining_files, files_to_release) = split_pending h.files pending_files in
    let plain = clean_cache_nolock h.files duration now h.cache remaining_files files_to_release in
    let br =
      clean_cache_nolock h.files duration now_br h.cache_brotli plain.pending_files
        plain.files_to_release in
    let gz =
      clean_cache_nolock h.files duration now_gz h.cache_gzip br.pending_files
        br.files_to_release in
    (
      record h { cache = plain.remaining; cache_brotli = br.remaining; cache_gzip = gz.remaining },
      gz.pending_files,
      gz.files_to_release,
    )

-- The loop at the end of `cleanCache`.
unfoldable pub release_files : FsHandler → List ℕ → FsHandler
unfolding release
release_files h [] = h
release_files h (i ∷ files) = release_files (release h i) files

-- No reader, and one reader fewer.
abbrev pub no_reader : Option FsHandler → Option (FsHandler × Bool)
no_reader none = none
no_reader (some h) = some (h, false)

-- `NewReader`, where `opens` tells whether `os.Open` opens the file again: whether there is a
-- reader. The outer `none` is a panic.
unfoldable pub new_reader : FsHandler → ℕ → Bool → Option (FsHandler × Bool)
unfolding is_big dec_readers_count
new_reader h i opens =
    let f = h.files i in
    if not (is_big f)
    then some (h, true)
    else if not f.has_file
    then none
    else if ltb 0 f.big_files
    then some (with_file h i (record f { big_files = f.big_files - 1 }), true)
    else if opens
    then some (h, true)
    else no_reader (dec_readers_count h i)

-- `Close` of a reader of the file, where `seeks` tells whether `File.Seek` works.
unfoldable pub close_reader : FsHandler → ℕ → Bool → Option FsHandler
unfolding is_big dec_readers_count
close_reader h i seeks =
    let f = h.files i in
    dec_readers_count
      (if is_big f && seeks then with_file h i (record f { big_files = f.big_files + 1 }) else h) i
