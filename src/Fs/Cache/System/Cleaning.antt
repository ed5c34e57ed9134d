-- ===== src/Fs/Cache/System/Cleaning.antt =====
-- What `cleanCache` does with one file.
use justhttp.Base.{
  ℕ, ◌+◌, ◌-◌, ◌<◌, ◌≡◌, refl, inl, inr, List, [], ◌∷◌, ◌++◌, arith, ltb, Bool-cases,
}
use justhttp.Base.Count.{count, count-append}
use justhttp.Fs.Cache.{
  FsFile, FileCache, FsHandler, clean_cache_nolock, split_pending, clean_cache, Cleaned,
}
use justhttp.Fs.Cache.System.{count_in, cached}

-- What a cleaning of one cache does with the numbered file: it stays somewhere, and is not released
-- if it has readers.
abbrev CleansOf : (ℕ → FsFile) → ℕ → FileCache → List ℕ → List ℕ → Cleaned → Type 0
CleansOf files k cache pending_files files_to_release done =
    (count_in k done.remaining + count k done.pending_files + count k done.files_to_release
      ≡ count_in k cache + count k pending_files + count k files_to_release)
    × (0 < (files k).readers_count → count k done.files_to_release ≡ count k files_to_release)

clean_cache_nolock-CleansOf :
    (files : ℕ → FsFile) (duration now k : ℕ) (cache : FileCache)
    (pending_files files_to_release : List ℕ)
    → CleansOf files k cache pending_files files_to_release
        (clean_cache_nolock files duration now cache pending_files files_to_release)
unfolding clean_cache_nolock
clean_cache_nolock-CleansOf files duration now k [] ps rs = (refl, λ pos. refl)
clean_cache_nolock-CleansOf files duration now k ((path, i) ∷ cache) ps rs =
    let ih = clean_cache_nolock-CleansOf files duration now k cache in
    elim (Bool-cases (ltb duration (now - (files i).t))) [
      | inr recent ↦ let (sum, safe) = ih ps rs in rw recent (omega (arith, sum), safe)
      | inl stale ↦ elim (Bool-cases (ltb 0 (files i).readers_count)) [
        | inl busy ↦
            let (sum, safe) = ih (ps ++ i ∷ []) rs in
            rw (stale, busy) (omega (arith, sum, count-append k ps (i ∷ [])), safe)
        | inr unread ↦
            let (sum, safe) = ih ps (rs ++ i ∷ []) in
            rw (stale, unread)
              (
                omega (arith, sum, count-append k rs (i ∷ [])),
                λ pos. ground (arith, unread, pos, safe pos, count-append k rs (i ∷ [])),
              )
      ]
    ]

split_pending_counts :
    (files : ℕ → FsFile) (k : ℕ) (ps : List ℕ)
    → (count k (split_pending files ps).0 + count k (split_pending files ps).1 ≡ count k ps)
      × (0 < (files k).readers_count → count k (split_pending files ps).1 ≡ 0)
unfolding split_pending
split_pending_counts files k [] = (refl, λ pos. refl)
split_pending_counts files k (i ∷ ps) =
    let (sum, safe) = split_pending_counts files k ps in
    (ground (arith, sum), λ pos. ground (arith, sum, safe pos))

pub clean_cache_counts :
    (h : FsHandler) (duration : ℕ) (now : ℕ × ℕ × ℕ) (ps : List ℕ) (k : ℕ)
    → (cached (clean_cache h duration now ps).0 k
          + count k (clean_cache h duration now ps).1
          + count k (clean_cache h duration now ps).2
        ≡ cached h k + count k ps)
      × (0 < (h.files k).readers_count → count k (clean_cache h duration now ps).2 ≡ 0)
unfolding clean_cache
clean_cache_counts h duration (now, now_br, now_gz) ps k =
    let (sum0, safe0) = split_pending_counts h.files k ps in
    let (remaining_files, files_to_release) = split_pending h.files ps in
    let plain = clean_cache_nolock h.files duration now h.cache remaining_files files_to_release in
    let br =
      clean_cache_nolock h.files duration now_br h.cache_brotli plain.pending_files
        plain.files_to_release in
    let (sum1, safe1) =
      clean_cache_nolock-CleansOf h.files duration now k h.cache remaining_files files_to_release in
    let (sum2, safe2) =
      clean_cache_nolock-CleansOf h.files duration now_br k h.cache_brotli plain.pending_files
        plain.files_to_release in
    let (sum3, safe3) =
      clean_cache_nolock-CleansOf h.files duration now_gz k h.cache_gzip br.pending_files
        br.files_to_release in
    (
      omega (arith, sum0, sum1, sum2, sum3),
      λ pos. omega (arith, safe0 pos, safe1 pos, safe2 pos, safe3 pos),
    )
