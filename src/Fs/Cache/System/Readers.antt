-- ===== src/Fs/Cache/System/Readers.antt =====
-- What the readers of a file change.
use mathlib.Core.Path.{fun_ext}
use justhttp.Base.{
  ℕ, ◌+◌, ◌-◌, ◌<◌, ◌≡◌, refl, ap, inl, inr, Bool, true, false, not, ◌&&◌, Option, none, some,
  arith, ltb, if◌then◌else◌, lt→ltb, Bool-cases,
}
use justhttp.Base.Count.{count, count-remove}
use justhttp.Fs.Cache.{
  new_reader, close_reader, is_big, update, no_reader, FsHandler, with_file, dec_readers_count,
}
use justhttp.Fs.Cache.System.{Serving, reader_closed, IsServing}

pub reader_closed-IsServing :
    (s : Serving) (i : ℕ) (h : FsHandler)
    → 0 < count i s.reading
    → dec_readers_count s.handler i ≡ some h
    → IsServing s
    → IsServing (reader_closed s h i)
unfolding dec_readers_count
reader_closed-IsServing s i h pos e v =
    let counted = lt→ltb 0 (s.handler.files i).readers_count (omega (arith, v.readers i)) in
    let less : with_file s.handler i
          (record (s.handler.files i) { readers_count = (s.handler.files i).readers_count - 1 })
        ≡ h =
      ground (arith, rw counted at e) in
    rw (← less) (record {
      readers = λ k. ground (arith, v.readers k, v.readers i, count-remove i k s.reading);
      places = λ k. ground (arith, v.places k, v.places i);
      kept = λ k more. ground (arith, v.kept k, count-remove i k s.reading);
    })

pub big_files-IsServing :
    (s : Serving) (i n : ℕ)
    → IsServing s
    → IsServing (record s {
      handler = with_file s.handler i (record (s.handler.files i) { big_files = n });
    })
big_files-IsServing s i n v = record {
  readers = λ k. ground (arith, v.readers k, v.readers i);
  places = λ k. ground (arith, v.places k, v.places i);
  kept = v.kept;
}

pub close_reader-IsServing :
    (s : Serving) (i : ℕ) (seeks : Bool) (h : FsHandler)
    → 0 < count i s.reading
    → close_reader s.handler i seeks ≡ some h
    → IsServing s
    → IsServing (reader_closed s h i)
unfolding close_reader
close_reader-IsServing s i seeks h pos e v =
    elim (Bool-cases (is_big (s.handler.files i) && seeks)) [
      | inl kept ↦
          reader_closed-IsServing _ i h pos (rw (close_reader, kept) at e)
            (big_files-IsServing s i ((s.handler.files i).big_files + 1) v)
      | inr gone ↦ reader_closed-IsServing s i h pos (rw (close_reader, gone) at e) v
    ]

-- What `NewReader` comes to, for a handler that it returns.
abbrev pub NewReaderOf : FsHandler → ℕ → FsHandler → Bool → Type 0
NewReaderOf h i h' true = (n : ℕ) × (h' ≡ with_file h i (record (h.files i) { big_files = n }))
NewReaderOf h i h' false = dec_readers_count h i ≡ some h'

same_file :
    (h : FsHandler) (i : ℕ)
    → h ≡ with_file h i (record (h.files i) { big_files = (h.files i).big_files })
same_file h i = ap (λ files. record h { files = files }) (fun_ext (λ k. same_at k))
  where
    same_at :
        (k : ℕ)
        → h.files k ≡ update h.files i (record (h.files i) { big_files = (h.files i).big_files }) k
    same_at k = ground arith

abbrev NewReaderResult : FsHandler → ℕ → Option (FsHandler × Bool) → Type 0
NewReaderResult h i none = Unit
NewReaderResult h i (some (h', done)) = NewReaderOf h i h' done

no_reader_result :
    (h : FsHandler) (i : ℕ) (o : Option FsHandler)
    → dec_readers_count h i ≡ o
    → NewReaderResult h i (no_reader o)
no_reader_result h i none e = tt
no_reader_result h i (some d) e = e

-- `new_reader` by the values of its tests.
branch_result :
    (h : FsHandler) (i : ℕ) (big has_file idle opens : Bool)
    → NewReaderResult h i (
        if not big
        then some (h, true)
        else if not has_file
        then none
        else if idle
        then some
            (with_file h i (record (h.files i) { big_files = (h.files i).big_files - 1 }), true)
        else if opens
        then some (h, true)
        else no_reader (dec_readers_count h i))
branch_result h i false has_file idle opens = ((h.files i).big_files, same_file h i)
branch_result h i true false idle opens = tt
branch_result h i true true true opens = ((h.files i).big_files - 1, refl)
branch_result h i true true false true = ((h.files i).big_files, same_file h i)
branch_result h i true true false false = no_reader_result h i (dec_readers_count h i) refl

new_reader_result :
    (h : FsHandler) (i : ℕ) (opens : Bool) → NewReaderResult h i (new_reader h i opens)
unfolding new_reader
new_reader_result h i opens =
    branch_result h i (is_big (h.files i)) (h.files i).has_file (ltb 0 (h.files i).big_files) opens

pub new_reader-NewReaderOf :
    (h : FsHandler) (i : ℕ) (opens : Bool) (h' : FsHandler) (done : Bool)
    → new_reader h i opens ≡ some (h', done)
    → NewReaderOf h i h' done
new_reader-NewReaderOf h i opens h' done e = rw e at (new_reader_result h i opens)
