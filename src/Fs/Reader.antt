-- ===== src/Fs/Reader.antt =====
-- `fsSmallFileReader` of fs.go: what it reads, and what it writes. A file of the system is known by
-- what `ReadAt` answers, and a writer by what `Write` does.
pub mod Whole
use justhttp.Base.{
  ℕ, zero, suc, ◌+◌, ◌-◌, not, ◌&&◌, ◌||◌, Option, none, some, [], leb, ◌==◌, if◌then◌else◌, length,
  take, drop, Bytes, is_none,
}
use Prim.Native.Nat.{min}
use justhttp.Base.Int.{ℤ, pos, negsuc}

pub data ReadError : Type 0 where
  eof failed : ReadError

-- `opened` is a file with `f`, by the answers of `ReadAt` at a position for a number of bytes;
-- `generated` has a `dirIndex`.
pub data Content : Type 0 where
  opened : (ℕ → ℕ → Bytes × Option ReadError) → Content
  generated : Bytes → Content

pub record SmallReader : Type 0 where
  pub start_pos : ℕ
  pub end_pos : ℕ

-- `smallFileReader`, for a content length.
unfoldable pub small_file_reader : ℕ → SmallReader
small_file_reader content_length = record { start_pos = 0; end_pos = content_length }

-- The position behind a last one; behind one below 0 there is nothing to read, as behind -1.
abbrev pub behind : ℤ → ℕ
behind (pos last) = last + 1
behind (negsuc n) = 0

-- `UpdateByteRange`.
unfoldable pub update_byte_range : SmallReader → ℕ → ℤ → SmallReader
update_byte_range r start last = record r { start_pos = start; end_pos = behind last }

-- `Read` of at most `len` bytes; `none` is a slice out of range.
unfoldable pub read : Content → SmallReader → ℕ → Option (Bytes × Option ReadError × SmallReader)
read content r len =
    let n = min len (r.end_pos - r.start_pos) in
    if leb r.end_pos r.start_pos then some ([], some eof, r) else (elim content [
      | opened read_at ↦
          let (b, e) = read_at r.start_pos n in
          some (b, e, record r { start_pos = r.start_pos + length b })
      | generated d ↦
          let b = take n (drop r.start_pos d) in
          if leb r.start_pos (length d)
          then some (b, none, record r { start_pos = r.start_pos + length b })
          else none
    ])

-- `err`, or `errw` where `err` is nil.
abbrev pub or_else : Option ReadError → Option ReadError → Option ReadError
or_else none e = e
or_else (some e) e' = some e

-- What `WriteTo` returns of the errors: `io.EOF` is none.
abbrev pub without_eof : Option ReadError → Option ReadError
without_eof none = none
without_eof (some eof) = none
without_eof (some failed) = some failed

-- `Write` gives the writer, the number of bytes written, and an error.
module _ {W : Type 0} (write : W → Bytes → W × ℕ × Option ReadError) where
  -- The loop of `WriteTo`, with the end, the bound of the rounds, the writer, `curPos`, the length
  -- of `buf` and `err`; `none` is a panic, or a bound that is too small.
  unfoldable pub write_rounds :
      (ℕ → ℕ → Bytes × Option ReadError)
      → ℕ
      → ℕ
      → W
      → ℕ
      → ℕ
      → Option ReadError
      → Option (W × ℕ × Option ReadError)
  write_rounds read_at end zero w cur buf e = none
  write_rounds read_at end (suc rounds) w cur buf e =
      let n = min buf (end - cur) in
      let (b, e') = read_at cur n in
      let (w', nw, errw) = write w b in
      let next = write_rounds read_at end rounds w' (cur + nw) n (or_else e' errw) in
      if not (is_none e) || leb end cur
      then some (w, cur, e)
      else if is_none errw && not (nw == length b)
      then none
      else next

  -- `WriteTo` a writer that is no `io.ReaderFrom`, with buffers of `buf` bytes: the writer, the
  -- number of bytes and the error.
  unfoldable pub write_to : Content → SmallReader → ℕ → ℕ → W → Option (W × ℕ × Option ReadError)
  unfolding write_rounds
  write_to (generated d) r buf rounds w =
      if leb r.start_pos r.end_pos && leb r.end_pos (length d)
      then some (write w (take (r.end_pos - r.start_pos) (drop r.start_pos d)))
      else none
  write_to (opened read_at) r buf rounds w =
      elim (write_rounds read_at r.end_pos rounds w r.start_pos buf none) [
        | none ↦ none
        | some (w', cur, e) ↦ some (w', cur - r.start_pos, without_eof e)
      ]
