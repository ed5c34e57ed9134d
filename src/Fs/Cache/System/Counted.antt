-- ===== src/Fs/Cache/System/Counted.antt =====
-- A file is not closed while it has readers.
use justhttp.Base.{
  ℕ, ◌+◌, ◌-◌, ◌≤◌, ◌<◌, ◌≡◌, refl, ap, inl, inr, true, false, some, [], ◌∷◌, arith, ◌==◌,
  if◌then◌else◌, lt→ltb, Option-cases, Bytes,
}
use justhttp.Base.Count.{count, remove, count-remove, count-append}
use justhttp.Fs.Cache.{
  FsFile, FileCache, FsHandler, Encoding, identity, brotli, gzip, cache_of, with_cache, lookup,
  with_file, find_file, new_file, add_file, release, dec_readers_count, clean_cache, add_reader,
}
use justhttp.Fs.Cache.System.Readers.{
  reader_closed-IsServing, big_files-IsServing, close_reader-IsServing, new_reader-NewReaderOf,
}
use justhttp.Fs.Cache.System.Cleaning.{clean_cache_counts}
use justhttp.Fs.Cache.System.{
  Serving, found, file_opened, added, released, cleaned, Step, finding, opening, adding,
  releasing_one, taking_reader, missing_reader, not_modified, closing, cleaning, Reach, start,
  after, count_in, cached, IsServing,
}

lookup-count_in : (path : Bytes) (c : FileCache) (i : ℕ) → lookup path c ≡ some i → 0 < count_in i c
unfolding lookup
lookup-count_in path [] i h = cc
lookup-count_in path ((p, j) ∷ c) i h = ground (arith, lookup-count_in path c i)

cached-cache_of :
    (h : FsHandler) (encoding : Encoding) (i : ℕ) → count_in i (cache_of h encoding) ≤ cached h i
cached-cache_of h identity i = omega arith
cached-cache_of h brotli i = omega arith
cached-cache_of h gzip i = omega arith

-- A file that the cache has gets one more reader.
reader_added-IsServing :
    (s : Serving) (i : ℕ)
    → 0 < cached s.handler i
    → IsServing s
    → IsServing (found s (add_reader s.handler i) i)
reader_added-IsServing s i pos v = record {
  readers = λ k. ground (arith, v.readers k, v.readers i);
  places = λ k. ground (arith, v.places k, v.places i);
  kept = λ k more. ground (arith, v.kept k);
}

lookup-cached :
    (h : FsHandler) (encoding : Encoding) (path : Bytes) (i : ℕ)
    → lookup path (cache_of h encoding) ≡ some i
    → 0 < cached h i
lookup-cached h encoding path i e =
    omega (arith, lookup-count_in path (cache_of h encoding) i e, cached-cache_of h encoding i)

found-IsServing :
    (s : Serving) (encoding : Encoding) (path : Bytes) (h : FsHandler) (i : ℕ)
    → find_file s.handler encoding path ≡ (h, some i)
    → IsServing s
    → IsServing (found s h i)
unfolding find_file
found-IsServing s encoding path h i e v =
    elim (Option-cases (lookup path (cache_of s.handler encoding))) [
      | inl absent ↦ absurd (ground (arith, absent, e))
      | inr (j, here) ↦
          let same : j ≡ i = ground (arith, here, e) in
          let first : add_reader s.handler j ≡ h = ap (λ p. p.0) (rw (find_file, here) at e) in
          rw (← first) (
            rw (← same)
              (reader_added-IsServing s j (lookup-cached s.handler encoding path j here) v))
    ]

opened-IsServing :
    (s : Serving) (f : FsFile)
    → f.readers_count ≡ 0
    → f.closed ≡ false
    → IsServing s
    → IsServing (file_opened s f)
unfolding new_file
opened-IsServing s f unread unclosed v = record {
  readers = λ k.
      ground (
        arith,
        unread,
        v.readers k,
        v.places k,
        v.kept s.handler.opened,
        v.places s.handler.opened,
      );
  places = λ k. ground (arith, unclosed, v.places k, v.places s.handler.opened);
  kept = λ k more. ground (arith, v.kept k);
}

cached-with_cache :
    (h : FsHandler) (encoding : Encoding) (path : Bytes) (j i : ℕ)
    → cached (with_cache h encoding ((path, j) ∷ cache_of h encoding)) i
      ≡ cached h i + (if j == i then 1 else 0)
cached-with_cache h identity path j i = omega arith
cached-with_cache h brotli path j i = omega arith
cached-with_cache h gzip path j i = omega arith

stored-cached :
    (h : FsHandler) (encoding : Encoding) (path : Bytes) (i : ℕ)
    → 0 < cached (with_cache h encoding ((path, i) ∷ cache_of h encoding)) i
stored-cached h encoding path i = rw (cached-with_cache h encoding path i i) (ground arith)

pub with_cache_keeps :
    (h : FsHandler) (encoding : Encoding) (c : FileCache)
    → ((with_cache h encoding c).files ≡ h.files) × ((with_cache h encoding c).opened ≡ h.opened)
with_cache_keeps h identity c = (refl, refl)
with_cache_keeps h brotli c = (refl, refl)
with_cache_keeps h gzip c = (refl, refl)

-- A fresh file is put into the cache.
stored-IsServing :
    (s : Serving) (encoding : Encoding) (path : Bytes) (i : ℕ)
    → 0 < count i s.fresh
    → IsServing s
    → IsServing (record s {
      handler = with_cache s.handler encoding ((path, i) ∷ cache_of s.handler encoding);
      fresh = remove i s.fresh;
    })
stored-IsServing s encoding path i pos v =
    let (files, opened) =
      with_cache_keeps s.handler encoding ((path, i) ∷ cache_of s.handler encoding) in
    record {
      readers = λ k. rw files (v.readers k);
      places = λ k.
          rw (files, opened, cached-with_cache s.handler encoding path i k)
            (ground (arith, v.places k, count-remove i k s.fresh));
      kept =
          λ k more. rw (cached-with_cache s.handler encoding path i k) (ground (arith, v.kept k));
    }

given_up-IsServing :
    (s : Serving) (i : ℕ)
    → 0 < count i s.fresh
    → IsServing s
    → IsServing (record s { fresh = remove i s.fresh; releasing = i ∷ s.releasing })
given_up-IsServing s i pos v = record {
  readers = v.readers;
  places = λ k. ground (arith, v.places k, count-remove i k s.fresh);
  kept = v.kept;
}

added-IsServing :
    (s : Serving) (encoding : Encoding) (path : Bytes) (i : ℕ)
    → 0 < count i s.fresh
    → IsServing s
    → IsServing (added s encoding path i)
unfolding add_file
added-IsServing s encoding path i pos v =
    elim (Option-cases (lookup path (cache_of s.handler encoding))) [
      | inl absent ↦
          rw (add_file, absent)
            (reader_added-IsServing _ i (stored-cached s.handler encoding path i)
              (stored-IsServing s encoding path i pos v))
      | inr (j, here) ↦
          rw (add_file, here)
            (reader_added-IsServing _ j (lookup-cached s.handler encoding path j here)
              (given_up-IsServing s i pos v))
    ]

released-IsServing :
    (s : Serving) (i : ℕ) → 0 < count i s.releasing → IsServing s → IsServing (released s i)
unfolding release
released-IsServing s i pos v = record {
  readers = λ k. ground (arith, v.readers k, v.readers i);
  places = λ k. ground (arith, v.places k, v.places i, count-remove i k s.releasing);
  kept = v.kept;
}

cleaned-IsServing :
    (s : Serving) (duration : ℕ) (now : ℕ × ℕ × ℕ)
    → IsServing s
    → IsServing (cleaned s duration now)
unfolding clean_cache
cleaned-IsServing s duration (now, now_br, now_gz) v =
    let counts = clean_cache_counts s.handler duration (now, now_br, now_gz) s.pending in
    let gone = (clean_cache s.handler duration (now, now_br, now_gz) s.pending).2 in
    record {
      readers = v.readers;
      places = λ k.
          let (sum, safe) = counts k in
          omega (arith, v.places k, sum, count-append k gone s.releasing);
      kept = λ k more.
          let (sum, safe) = counts k in
          omega (arith, v.kept k more, sum, safe (omega (arith, v.readers k)));
    }

pub Step-IsServing : (s t : Serving) → Step s t → IsServing s → IsServing t
Step-IsServing s t (finding encoding path h i e et) v =
    rw et (found-IsServing s encoding path h i e v)
Step-IsServing s t (opening f unread unclosed et) v = rw et (opened-IsServing s f unread unclosed v)
Step-IsServing s t (adding encoding path i pos et) v =
    rw et (added-IsServing s encoding path i pos v)
Step-IsServing s t (releasing_one i pos et) v = rw et (released-IsServing s i pos v)
Step-IsServing s t (taking_reader i opens h e et) v =
    let (n, eh) = new_reader-NewReaderOf s.handler i opens h true e in
    rw (et, eh) (big_files-IsServing s i n v)
Step-IsServing s t (missing_reader i opens h pos e et) v =
    rw et (reader_closed-IsServing s i h pos (new_reader-NewReaderOf s.handler i opens h false e) v)
Step-IsServing s t (not_modified i h pos e et) v = rw et (reader_closed-IsServing s i h pos e v)
Step-IsServing s t (closing i seeks h pos e et) v =
    rw et (close_reader-IsServing s i seeks h pos e v)
Step-IsServing s t (cleaning duration now et) v = rw et (cleaned-IsServing s duration now v)

-- In every state that the goroutines can reach, a file's reader count is the number of its readers,
-- a file that was opened is cached, pending, fresh, to be released or closed, exactly one of these
-- and once, and a file with a reader is cached or pending.
pub Reach-IsServing : {s : Serving} → Reach s → IsServing s
Reach-IsServing start = record {
  readers = λ i. refl;
  places = λ i. ground arith;
  kept = λ i more. absurd (omega arith);
}
Reach-IsServing (after {s} {t} r step) = Step-IsServing s t step (Reach-IsServing r)

-- In every state that the goroutines can reach, a file with a reader is not closed and nobody goes
-- on to release it, and the reader can be closed: the count does not fall below 0.
pub Reach-readable :
    {s : Serving} (i : ℕ)
    → Reach s
    → 0 < count i s.reading
    → ((s.handler.files i).closed ≡ false)
      × (count i s.releasing ≡ 0)
      × ((h : FsHandler) × (dec_readers_count s.handler i ≡ some h))
unfolding dec_readers_count
Reach-readable {s} i r pos =
    let v = Reach-IsServing r in
    let counted = lt→ltb 0 (s.handler.files i).readers_count (omega (arith, v.readers i)) in
    (
      ground (arith, v.places i, v.kept i pos),
      ground (arith, v.places i, v.kept i pos),
      (
        with_file s.handler i
            (record (s.handler.files i) { readers_count = (s.handler.files i).readers_count - 1 }),
        rw counted refl,
      ),
    )
