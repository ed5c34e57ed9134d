-- ===== src/Fs/Handler/Opening.antt =====
-- The files that `handleRequest` opens are new.
use justhttp.Base.{
  ℕ, ◌<◌, ◌≡◌, refl, Bool, true, false, not, Option, List, [], ◌∷◌, ◌++◌, if◌then◌else◌, Bytes,
  Result, ok, err,
}
use justhttp.Fs.Cache.{FsFile, Encoding}
use justhttp.Fs.Handler.{
  Settings, OpenError, dir_index_required, no_create_permission, not_exist, other, Reply, failed,
  path_not_found, redirected, must_compress, open_index_file, open_twice, open_path,
}
use justhttp.Fs.Handler.Readers.{streaming, IsSound}

-- A file that was just opened, and is not empty.
abbrev pub IsNew : FsFile → Type 0
IsNew f = (f.readers_count ≡ 0) × IsSound f × (0 < f.content_length)

abbrev pub Opens : {E : Type 0} → Result E FsFile → Type 0
Opens (ok f) = IsNew f
Opens (err e) = Unit

abbrev pub OpensOr : Result Reply FsFile → Type 0
OpensOr (ok f) = IsNew f
OpensOr (err r) = (k : ℕ) → streaming r k ≡ 0

module _ (open_fs_file : Bytes → Bool → Encoding → Result OpenError FsFile)
    (create_dir_index : Bytes → Bool → Encoding → Result OpenError FsFile)
    (parse_http_date : Bytes → Option ℕ)
    (opens_new : (path : Bytes) (compressed : Bool) (encoding : Encoding)
      → Opens (open_fs_file path compressed encoding))
    (indexes_new : (path : Bytes) (compressed : Bool) (encoding : Encoding)
      → Opens (create_dir_index path compressed encoding)) where
  open_index_file-Opens :
      (s : Settings) (names : List Bytes) (path : Bytes) (compressed : Bool) (encoding : Encoding)
      → Opens (
          open_index_file open_fs_file create_dir_index parse_http_date s names path compressed
            encoding)
  unfolding open_index_file
  open_index_file-Opens s [] path compressed encoding = generated s.generate_index_pages
    where
      generated :
          (b : Bool) → Opens (if b then create_dir_index path compressed encoding else err other)
      generated true = indexes_new path compressed encoding
      generated false = tt
  open_index_file-Opens s (name ∷ names) path compressed encoding =
      next
        (open_index_file open_fs_file create_dir_index parse_http_date s names path compressed
          encoding)
        (open_index_file-Opens s names path compressed encoding)
        (open_fs_file (path ++ b'/' ∷ name) compressed encoding)
        (opens_new (path ++ b'/' ∷ name) compressed encoding)
    where
      next :
          (rest : Result OpenError FsFile)
          → Opens rest
          → (o : Result OpenError FsFile) → Opens o
          → Opens (elim o [
            | ok f ↦ ok f
            | err not_exist ↦ rest
            | err dir_index_required ↦ err other
            | err no_create_permission ↦ err other
            | err other ↦ err other
          ])
      next rest vr (ok f) v = v
      next rest vr (err not_exist) v = vr
      next rest vr (err dir_index_required) v = tt
      next rest vr (err no_create_permission) v = tt
      next rest vr (err other) v = tt

  open_twice-Opens :
      (path : Bytes) (encoding : Encoding)
      → Opens (open_twice open_fs_file create_dir_index parse_http_date path encoding)
  unfolding open_twice
  open_twice-Opens path encoding =
      once (open_fs_file path (must_compress encoding) encoding)
        (opens_new path (must_compress encoding) encoding) (must_compress encoding)
    where
      again :
          (o : Result OpenError FsFile)
          → Opens o
          → Opens {E = OpenError × Bool} (elim o [ ok f ↦ ok f | err e ↦ err (e, false) ])
      again (ok f) v = v
      again (err e) v = tt

      once :
          (o : Result OpenError FsFile)
          → Opens o
          → (b : Bool)
          → Opens {E = OpenError × Bool} (elim o [
            | ok f ↦ ok f
            | err no_create_permission ↦
                if b
                then (elim (open_fs_file path false encoding) [
                  | ok f ↦ ok f
                  | err e ↦ err (e, false)
                ])
                else err (no_create_permission, false)
            | err dir_index_required ↦ err (dir_index_required, b)
            | err not_exist ↦ err (not_exist, b)
            | err other ↦ err (other, b)
          ])
      once (ok f) v b = v
      once (err no_create_permission) v true =
          again (open_fs_file path false encoding) (opens_new path false encoding)
      once (err no_create_permission) v false = tt
      once (err dir_index_required) v b = tt
      once (err not_exist) v b = tt
      once (err other) v b = tt

  pub open_path-OpensOr :
      (s : Settings) (path : Bytes) (trailing : Bool) (encoding : Encoding)
      → OpensOr (open_path open_fs_file create_dir_index parse_http_date s path trailing encoding)
  unfolding open_path
  open_path-OpensOr s path trailing encoding =
      opened (open_twice open_fs_file create_dir_index parse_http_date (s.root ++ path) encoding)
        (open_twice-Opens (s.root ++ path) encoding)
    where
      absent : (b : Bool) (k : ℕ) → streaming (if b then path_not_found else failed 404) k ≡ 0
      absent true k = refl
      absent false k = refl

      forbidden :
          (o : Result OpenError FsFile)
          → Opens o
          → OpensOr (elim o [ ok f ↦ ok f | err e ↦ err (failed 403) ])
      forbidden (ok f) v = v
      forbidden (err e) v = λ k. refl

      indexed :
          (b compressed : Bool)
          → OpensOr (
              if not b
              then err (redirected (path ++ b'/' ∷ []))
              else (elim (open_index_file open_fs_file create_dir_index parse_http_date s
                  s.index_names
                  (s.root ++ path)
                  compressed
                  encoding) [ ok f ↦ ok f | err e ↦ err (failed 403) ]))
      indexed false compressed = λ k. refl
      indexed true compressed =
          forbidden
            (open_index_file open_fs_file create_dir_index parse_http_date s s.index_names
              (s.root ++ path) compressed encoding)
            (open_index_file-Opens s s.index_names (s.root ++ path) compressed encoding)

      opened :
          (o : Result (OpenError × Bool) FsFile)
          → Opens o
          → OpensOr (elim o [
            | ok f ↦ ok f
            | err (dir_index_required, compressed) ↦
                if not trailing
                then err (redirected (path ++ b'/' ∷ []))
                else (elim (open_index_file open_fs_file create_dir_index parse_http_date s
                    s.index_names
                    (s.root ++ path)
                    compressed
                    encoding) [ ok f ↦ ok f | err e ↦ err (failed 403) ])
            | err (no_create_permission, compressed) ↦
                err (if s.has_path_not_found then path_not_found else failed 404)
            | err (not_exist, compressed) ↦
                err (if s.has_path_not_found then path_not_found else failed 404)
            | err (other, compressed) ↦
                err (if s.has_path_not_found then path_not_found else failed 404)
          ])
      opened (ok f) v = v
      opened (err (dir_index_required, compressed)) v = indexed trailing compressed
      opened (err (no_create_permission, compressed)) v = absent s.has_path_not_found
      opened (err (not_exist, compressed)) v = absent s.has_path_not_found
      opened (err (other, compressed)) v = absent s.has_path_not_found
