-- ===== src/Fs/Handler/Balance.antt =====
-- `handleRequest` returns, and balances the readers of every file.
use justhttp.Base.{ℕ, ◌+◌, ◌<◌, ◌≡◌, Bool, Option, none, some, arith, Bytes, Result, ok, err}
use justhttp.Fs.Path.{PathError, nil_byte, dot_dot, has_trailing_slash, served_path}
use justhttp.Fs.Cache.{FsFile, FsHandler, Encoding, find_file}
use justhttp.Fs.Handler.{
  Settings, Asked, OpenError, Reply, failed, file_encoding, serve, open_path, keep_opened, file_for,
  handle_request,
}
use justhttp.Fs.Handler.Opening.{Opens, open_path-OpensOr}
use justhttp.Fs.Handler.Readers.{readers, one_of, streaming, Settled, serve-Settled}
use justhttp.Fs.Handler.Served.{
  IsReady, FileFor, FoundOr, find_file-FoundOr, FileFor-same, keep_opened-FileFor,
}

-- `handle_request`'s result: every file has the readers that it had, and one for a response with
-- its stream.
abbrev pub IsBalanced : FsHandler → Option (FsHandler × Reply) → Type 0
IsBalanced h none = ⊥
IsBalanced h (some (h', reply)) = (k : ℕ) → readers h' k ≡ readers h k + streaming reply k

module _ (open_fs_file : Bytes → Bool → Encoding → Result OpenError FsFile)
    (create_dir_index : Bytes → Bool → Encoding → Result OpenError FsFile)
    (parse_http_date : Bytes → Option ℕ)
    (opens_new : (path : Bytes) (compressed : Bool) (encoding : Encoding)
      → Opens (open_fs_file path compressed encoding))
    (indexes_new : (path : Bytes) (compressed : Bool) (encoding : Encoding)
      → Opens (create_dir_index path compressed encoding)) where
  file_for-FileFor :
      (h : FsHandler) (s : Settings) (path : Bytes) (trailing : Bool) (encoding : Encoding)
      → IsReady h
      → FileFor h
          (file_for open_fs_file create_dir_index parse_http_date h s path trailing encoding)
  unfolding file_for
  file_for-FileFor h s path trailing encoding v =
      searched (find_file h encoding path) (find_file-FoundOr h encoding path v)
    where
      searched :
          (o : FsHandler × Option ℕ)
          → FoundOr h o
          → FileFor h (elim o.1 [
            | some i ↦ (o.0, ok i)
            | none ↦
                keep_opened o.0 encoding path
                  (open_path open_fs_file create_dir_index parse_http_date s path trailing encoding)
          ])
      searched (g, some i) w = w
      searched (g, none) (ready, same) =
          let o =
            open_path open_fs_file create_dir_index parse_http_date s path trailing encoding in
          FileFor-same h g (keep_opened g encoding path o) same (
            keep_opened-FileFor g encoding path o ready (
              open_path-OpensOr open_fs_file create_dir_index parse_http_date opens_new indexes_new
                s path trailing encoding))

  handle_request_balance :
      (h : FsHandler) (s : Settings) (a : Asked)
      → IsReady h
      → IsBalanced h (handle_request open_fs_file create_dir_index parse_http_date h s a)
  unfolding handle_request
  handle_request_balance h s a v = after (served_path s.rewrites a.path)
    where
      settled :
          (h' : FsHandler) (i : ℕ) (o : Option (FsHandler × Reply))
          → ((k : ℕ) → readers h' k ≡ readers h k + one_of i k)
          → Settled h' i o
          → IsBalanced h o
      settled h' i none same w = w
      settled h' i (some (g, reply)) same w = λ k. omega (arith, w k, same k)

      counted :
          (h' : FsHandler) (i : ℕ)
          → ((k : ℕ) → readers h' k ≡ readers h k + one_of i k)
          → 0 < readers h' i
      counted h' i same = ground (arith, same i)

      found :
          (o : FsHandler × Result Reply ℕ)
          → FileFor h o
          → IsBalanced h (elim o.1 [
            | err r ↦ some (o.0, r)
            | ok i ↦ serve parse_http_date o.0 i s a (file_encoding s a)
          ])
      found (h', err r) (same, unread) = λ k. omega (arith, same k, unread k)
      found (h', ok i) (same, sound, full) =
          settled h' i (serve parse_http_date h' i s a (file_encoding s a)) same (
            serve-Settled parse_http_date h' i s a (file_encoding s a) (counted h' i same) (sound i)
              full)

      after :
          (o : Result PathError Bytes)
          → IsBalanced h (elim o [
            | err nil_byte ↦ some (h, failed 400)
            | err dot_dot ↦ some (h, failed 500)
            | ok path ↦
                let encoding = file_encoding s a in
                let (h', answered_by) =
                  file_for open_fs_file create_dir_index parse_http_date h s path
                    (has_trailing_slash a.path)
                    encoding in
                elim answered_by [
                  | err r ↦ some (h', r)
                  | ok i ↦ serve parse_http_date h' i s a encoding
                ]
          ])
      after (err nil_byte) = λ k. omega arith
      after (err dot_dot) = λ k. omega arith
      after (ok path) =
          found
            (file_for open_fs_file create_dir_index parse_http_date h s path
              (has_trailing_slash a.path) (file_encoding s a))
            (file_for-FileFor h s path (has_trailing_slash a.path) (file_encoding s a) v)

-- If the files that are opened or cached are not empty, those opened have no readers, and a big one
-- is a file of the system, a request for a static file is answered without a panic, and every file
-- then has the readers that it had before, and one more if it is streamed to the client.
pub handle_request-IsBalanced :
    (open_fs_file : Bytes → Bool → Encoding → Result OpenError FsFile)
    (create_dir_index : Bytes → Bool → Encoding → Result OpenError FsFile)
    (parse_http_date : Bytes → Option ℕ) (h : FsHandler) (s : Settings) (a : Asked)
    → ((path : Bytes) (compressed : Bool) (encoding : Encoding)
        → Opens (open_fs_file path compressed encoding))
    → ((path : Bytes) (compressed : Bool) (encoding : Encoding)
        → Opens (create_dir_index path compressed encoding))
    → IsReady h
    → IsBalanced h (handle_request open_fs_file create_dir_index parse_http_date h s a)
handle_request-IsBalanced open_fs_file create_dir_index parse_http_date h s a opens indexes v =
    handle_request_balance open_fs_file create_dir_index parse_http_date opens indexes h s a v
