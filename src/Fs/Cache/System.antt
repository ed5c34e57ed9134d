-- ===== src/Fs/Cache/System.antt =====
-- The cache of open files and the goroutines that use it, as steps that they take in any order.
pub mod Cleaning
pub mod Readers
pub mod Counted
use justhttp.Base.{
  ℕ, ◌+◌, ◌<◌, ◌≡◌, Bool, true, false, none, some, List, [], ◌∷◌, ◌++◌, ltb, ◌==◌, if◌then◌else◌,
  Bytes,
}
use justhttp.Base.Count.{count, remove, count-remove, count-append}
use justhttp.Fs.Cache.{
  new_reader, close_reader, FsFile, FileCache, FsHandler, Encoding, identity, brotli, gzip,
  cache_of, with_cache, lookup, update, with_file, find_file, new_file, add_file, release,
  dec_readers_count, clean_cache_nolock, split_pending, clean_cache,
}

-- `reading` are the files in use, once for each use: `handleRequest` has counted a reader, until it
-- finds that it needs none or the reader is closed; `fresh` those that a
-- goroutine has opened and not yet taken to the cache; `pending` is `pendingFiles` of the cleaner;
-- `releasing` are the files that a goroutine goes on to release.
pub record Serving : Type 0 where
  pub handler : FsHandler
  pub reading : List ℕ
  pub fresh : List ℕ
  pub pending : List ℕ
  pub releasing : List ℕ

abbrev pub no_file : FsFile
no_file = record {
  has_file = false;
  dir_index = [];
  content_type = [];
  content_length = 0;
  compressed = false;
  last_modified = 0;
  last_modified_str = [];
  t = 0;
  readers_count = 0;
  big_files = 0;
  closed = false;
}

abbrev pub new_serving : Serving
new_serving = record {
  handler = record {
    files = λ i. no_file;
    opened = 0;
    cache = [];
    cache_brotli = [];
    cache_gzip = [];
  };
  reading = [];
  fresh = [];
  pending = [];
  releasing = [];
}

abbrev pub found : Serving → FsHandler → ℕ → Serving
found s h i = record s { handler = h; reading = i ∷ s.reading }

abbrev pub file_opened : Serving → FsFile → Serving
file_opened s f = record s {
  handler = (new_file s.handler f).0;
  fresh = (new_file s.handler f).1 ∷ s.fresh;
}

-- The numbered fresh file goes to the cache, or is released for the one that is there.
abbrev pub added : Serving → Encoding → Bytes → ℕ → Serving
added s encoding path i =
    let (h, j) = add_file s.handler encoding path i in
    record s {
      handler = h;
      reading = j ∷ s.reading;
      fresh = remove i s.fresh;
      releasing = elim (lookup path (cache_of s.handler encoding)) [
        | none ↦ s.releasing
        | some k ↦ i ∷ s.releasing
      ];
    }

abbrev pub released : Serving → ℕ → Serving
released s i = record s { handler = release s.handler i; releasing = remove i s.releasing }

abbrev pub reader_closed : Serving → FsHandler → ℕ → Serving
reader_closed s h i = record s { handler = h; reading = remove i s.reading }

abbrev pub cleaned : Serving → ℕ → (ℕ × ℕ × ℕ) → Serving
cleaned s duration now =
    let (h, pending_files, files_to_release) = clean_cache s.handler duration now s.pending in
    record s { handler = h; pending = pending_files; releasing = files_to_release ++ s.releasing }

pub data Step (s t : Serving) : Type 0 where
  finding :
      (encoding : Encoding) (path : Bytes) (h : FsHandler) (i : ℕ)
      → find_file s.handler encoding path ≡ (h, some i)
      → t ≡ found s h i
      → Step s t
  opening : (f : FsFile) → f.readers_count ≡ 0 → f.closed ≡ false → t ≡ file_opened s f → Step s t
  adding :
      (encoding : Encoding) (path : Bytes) (i : ℕ)
      → 0 < count i s.fresh
      → t ≡ added s encoding path i
      → Step s t
  releasing_one : (i : ℕ) → 0 < count i s.releasing → t ≡ released s i → Step s t
  taking_reader :
      (i : ℕ) (opens : Bool) (h : FsHandler)
      → new_reader s.handler i opens ≡ some (h, true)
      → t ≡ record s { handler = h }
      → Step s t
  missing_reader :
      (i : ℕ) (opens : Bool) (h : FsHandler)
      → 0 < count i s.reading
      → new_reader s.handler i opens ≡ some (h, false)
      → t ≡ reader_closed s h i
      → Step s t
  not_modified :
      (i : ℕ) (h : FsHandler)
      → 0 < count i s.reading
      → dec_readers_count s.handler i ≡ some h
      → t ≡ reader_closed s h i
      → Step s t
  closing :
      (i : ℕ) (seeks : Bool) (h : FsHandler)
      → 0 < count i s.reading
      → close_reader s.handler i seeks ≡ some h
      → t ≡ reader_closed s h i
      → Step s t
  cleaning : (duration : ℕ) (now : ℕ × ℕ × ℕ) → t ≡ cleaned s duration now → Step s t

pub data Reach : Serving → Type 0 where
  start : Reach new_serving
  after : {s t : Serving} → Reach s → Step s t → Reach t

-- How often the cache, or a cache of the three, has the file.
abbrev pub count_in : ℕ → FileCache → ℕ
count_in i [] = 0
count_in i ((p, j) ∷ c) = (if j == i then 1 else 0) + count_in i c

abbrev pub cached : FsHandler → ℕ → ℕ
cached h i = count_in i h.cache + count_in i h.cache_brotli + count_in i h.cache_gzip

-- The reader counts are right, each file opened is in one place or closed, and a file that is read
-- is in a cache or pending.
pub record IsServing (s : Serving) : Type 0 where
  pub readers : (i : ℕ) → (s.handler.files i).readers_count ≡ count i s.reading
  pub places :
      (i : ℕ)
      → cached s.handler i
          + count i s.pending
          + count i s.fresh
          + count i s.releasing
          + (if (s.handler.files i).closed then 1 else 0)
        ≡ (if ltb i s.handler.opened then 1 else 0)
  pub kept : (i : ℕ) → 0 < count i s.reading → 0 < cached s.handler i + count i s.pending
