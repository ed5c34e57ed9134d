-- ===== src/Tests/Files.antt =====
-- Static files: fs.go.
use justhttp.Base.{
  ℕ, ◌<◌, ◌≡◌, refl, Bool, true, false, Option, none, some, [], ◌∷◌, ◌++◌, arith, length, drop, All,
  Bytes, codes, Lacks, Result, ok, err, index_byte, index_byte-none,
}
use justhttp.Base.Search.{index, has_prefix}
use justhttp.Bytesconv.Uint
use justhttp.Base.Count.{count}
use justhttp.Fs.Path.{dot_dot, served_path, strip_leading_slashes, join, strip_leading_slashes-join}
use justhttp.Fs.Cache.{
  new_file, add_file, FsFile, FsHandler, Encoding, identity, brotli, gzip, cache_of, lookup,
  dec_readers_count, is_big,
}
use justhttp.Fs.Cache.System.{
  Serving, no_file, new_serving, file_opened, added, Reach, start, after, opening, adding,
  IsServing,
}
use justhttp.Fs.Cache.System.Counted.{Reach-IsServing, Reach-readable}
use justhttp.Fs.Reader.{ReadError, opened, generated, SmallReader, write_to}
use justhttp.Fs.Reader.Whole.{read_at_of, slice, write_to_whole}
use justhttp.Fs.Handler.{
  has_accept_encoding, Settings, Asked, OpenError, other, serve, handle_request,
}
use justhttp.Fs.Handler.Opening.{IsNew}
use justhttp.Fs.Handler.Served.{IsReady}
use justhttp.Fs.Handler.Balance.{IsBalanced, handle_request-IsBalanced}
use justhttp.Fs.Handler.Replies.{ReplySpans, serve-ReplySpans}

-- One file, opened and cached for a request.
abbrev one_file : Serving
one_file = added (file_opened new_serving no_file) identity (codes "/a") 0

one_file-Reach : Reach one_file
unfolding new_file
one_file-Reach =
    after (after start (opening no_file refl refl refl))
      (adding identity (codes "/a") 0 (omega arith) refl)

Reach-IsServing_example : IsServing one_file
Reach-IsServing_example = Reach-IsServing one_file-Reach

Reach-readable_example :
    ((one_file.handler.files 0).closed ≡ false)
    × (count 0 one_file.releasing ≡ 0)
    × ((h : FsHandler) × (dec_readers_count one_file.handler 0 ≡ some h))
unfolding add_file new_file
Reach-readable_example = Reach-readable 0 one_file-Reach (omega arith)

abbrev settings : Settings
settings = record {
  root = codes "/srv";
  index_names = [];
  rewrites = false;
  has_path_not_found = false;
  generate_index_pages = false;
  compress = true;
  compress_brotli = true;
  accept_byte_range = true;
}

abbrev asked : Asked
asked = record {
  path = codes "/a.txt";
  byte_range = codes "bytes=2-4";
  accept_encoding = codes "gzip, br";
  if_modified_since = [];
  is_head = false;
  opens = true;
  seeks = true;
  rewinds = true;
}

abbrev text : FsFile
text = record no_file { has_file = true; content_length = 10 }

abbrev opens_text : Bytes → Bool → Encoding → Result OpenError FsFile
opens_text path compressed encoding = ok text

abbrev no_index : Bytes → Bool → Encoding → Result OpenError FsFile
no_index path compressed encoding = err other

abbrev no_date : Bytes → Option ℕ
no_date b = none

text-IsNew : IsNew text
text-IsNew = (refl, (λ big. refl), omega arith)

uncached :
    (encoding : Encoding) (path : Bytes) (i : ℕ)
    → lookup path (cache_of new_serving.handler encoding) ≡ some i
    → 0 < 0
unfolding lookup
uncached identity path i e = cc
uncached brotli path i e = cc
uncached gzip path i e = cc

new_handler-IsReady : IsReady new_serving.handler
unfolding is_big
new_handler-IsReady = record {
  unread = λ k le. refl;
  sound = λ k big. cc;
  full = λ encoding path i e. uncached encoding path i e;
}

handle_request-IsBalanced_example :
    IsBalanced new_serving.handler
      (handle_request opens_text no_index no_date new_serving.handler settings asked)
handle_request-IsBalanced_example =
    handle_request-IsBalanced opens_text no_index no_date new_serving.handler settings asked
      (λ path compressed encoding. text-IsNew) (λ path compressed encoding. tt) new_handler-IsReady

abbrev text_handler : FsHandler
text_handler = record new_serving.handler { files = λ i. record text { readers_count = 1 } }

serve-ReplySpans_example : ReplySpans 10 (serve no_date text_handler 0 settings asked identity)
serve-ReplySpans_example =
    serve-ReplySpans no_date text_handler 0 settings asked identity (omega arith)

-- An empty file and a range of its last 5 bytes: a panic.
empty_range_run :
    serve no_date
      (record new_serving.handler { files = λ i. record no_file { readers_count = 1 } })
      0
      settings
      (record asked { byte_range = codes "bytes=-5" })
      identity
    ≡ none
unfolding serve index_byte justhttp.Bytesconv.Uint.parse_uint
empty_range_run = refl

has_accept_encoding_run :
    (has_accept_encoding (codes "gzip, br") (codes "br") ≡ true)
    × (has_accept_encoding (codes "gzip, br") (codes "deflate") ≡ false)
unfolding has_accept_encoding index has_prefix
has_accept_encoding_run = (refl, refl)

served_path_run :
    (served_path true (codes "/a/../b/") ≡ err dot_dot)
    × (served_path true (codes "/a/../") ≡ ok (codes "/a/.."))
unfolding served_path index has_prefix index_byte
served_path_run = (refl, refl)

abbrev append_write : Bytes → Bytes → Bytes × ℕ × Option ReadError
append_write w b = (w ++ b, length b, none)

abbrev two_to_five : SmallReader
two_to_five = record { start_pos = 2; end_pos = 5 }

write_to_whole_example :
    (write_to append_write (opened (read_at_of (codes "abcdefg"))) two_to_five 2 4 (codes "x")
      ≡ some (codes "x" ++ slice (codes "abcdefg") 2 5, 3, none))
    × (write_to append_write (generated (codes "abcdefg")) two_to_five 2 4 (codes "x")
        ≡ some (codes "x" ++ slice (codes "abcdefg") 2 5, 3, none))
write_to_whole_example =
    write_to_whole append_write (read_at_of (codes "abcdefg")) (codes "abcdefg") two_to_five 2 4
      (codes "x") (λ w b. refl) (λ start n. refl) (omega arith) (omega arith) (omega arith)

static_segments : All (Lacks b'/') (codes "static" ∷ codes "a.txt" ∷ [])
unfolding index_byte
static_segments = (static_lacks, (text_lacks, tt))
  where
    static_lacks : Lacks b'/' (codes "static")
    static_lacks = index_byte-none (codes "static") b'/' refl

    text_lacks : Lacks b'/' (codes "a.txt")
    text_lacks = index_byte-none (codes "a.txt") b'/' refl

strip_leading_slashes-join_example :
    strip_leading_slashes 1 (join (codes "static" ∷ codes "a.txt" ∷ []))
    ≡ some (join (drop 1 (codes "static" ∷ codes "a.txt" ∷ [])))
strip_leading_slashes-join_example =
    strip_leading_slashes-join 1 (codes "static" ∷ codes "a.txt" ∷ []) static_segments
