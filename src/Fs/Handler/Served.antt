-- ===== src/Fs/Handler/Served.antt =====
-- The file that `handleRequest` serves, with a reader counted: cached or opened.
use justhttp.Base.{
  ℕ, ◌+◌, ◌≤◌, ◌<◌, ◌≡◌, refl, sym, ap, ◌∙◌, inl, inr, Bool, true, Option, none, some, ◌∷◌, arith,
  ◌==◌, if◌then◌else◌, Bool-cases, Option-cases, Bytes, Result, ok, err,
}
use justhttp.Fs.Cache.{
  FsFile, FsHandler, Encoding, identity, brotli, gzip, cache_of, with_cache, lookup, is_big,
  add_reader, find_file, new_file, add_file, release, update,
}
use mathlib.Core.Path.{subst}
use justhttp.Fs.Cache.System.Counted.{with_cache_keeps}
use justhttp.Fs.Handler.{Reply, keep_opened}
use justhttp.Fs.Handler.Opening.{IsNew, OpensOr}
use justhttp.Fs.Handler.Readers.{readers, one_of, streaming, IsSound}

-- The files that are cached are not empty.
abbrev pub IsFull : FsHandler → Type 0
IsFull h =
    (encoding : Encoding) (path : Bytes) (i : ℕ)
    → lookup path (cache_of h encoding) ≡ some i
    → 0 < (h.files i).content_length

-- The files of a handler: those not opened yet have no readers.
pub record IsReady (h : FsHandler) : Type 0 where
  pub unread : (k : ℕ) → h.opened ≤ k → readers h k ≡ 0
  pub sound : (k : ℕ) → IsSound (h.files k)
  pub full : IsFull h

-- A file with one reader more, or a reply that has none.
abbrev pub FileFor : FsHandler → FsHandler × Result Reply ℕ → Type 0
FileFor h (h', ok i) =
    ((k : ℕ) → readers h' k ≡ readers h k + one_of i k)
    × ((k : ℕ) → IsSound (h'.files k))
    × (0 < (h'.files i).content_length)
FileFor h (h', err r) = ((k : ℕ) → readers h' k ≡ readers h k) × ((k : ℕ) → streaming r k ≡ 0)

update-IsSound :
    (files : ℕ → FsFile) (i k : ℕ) (f : FsFile)
    → IsSound f
    → IsSound (files k)
    → IsSound (update files i f k)
update-IsSound files i k f new old = elim (Bool-cases (i == k)) [
  | inl here ↦ rw (update, here) new
  | inr there ↦ rw (update, there) old
]

add_reader-FileFor :
    (h h' : FsHandler) (i : ℕ)
    → ((k : ℕ) → readers h' k ≡ readers h k)
    → ((k : ℕ) → IsSound (h'.files k))
    → 0 < (h'.files i).content_length
    → FileFor h (add_reader h' i, ok i)
unfolding is_big
add_reader-FileFor h h' i same sound full = (
  λ k. ground (arith, same k, same i),
  λ k.
      update-IsSound h'.files i k
        (record (h'.files i) { readers_count = (h'.files i).readers_count + 1 }) (sound i)
        (sound k),
  ground (arith, full),
)

release-FileFor : (h g : FsHandler) (i j : ℕ) → FileFor h (g, ok j) → FileFor h (release g i, ok j)
unfolding release is_big
release-FileFor h g i j (same, sound, full) = (
  λ k. ground (arith, same k),
  λ k. update-IsSound g.files i k (record (g.files i) { closed = true }) (sound i) (sound k),
  ground (arith, full),
)

new_file-cache_of :
    (h : FsHandler) (f : FsFile) (encoding : Encoding)
    → cache_of (new_file h f).0 encoding ≡ cache_of h encoding
unfolding new_file
new_file-cache_of h f identity = refl
new_file-cache_of h f brotli = refl
new_file-cache_of h f gzip = refl

new_file-IsReady :
    (h : FsHandler) (f : FsFile)
    → IsNew f
    → IsReady h
    → ((k : ℕ) → readers (new_file h f).0 k ≡ readers h k)
      × ((k : ℕ) → IsSound ((new_file h f).0.files k))
      × (0 < ((new_file h f).0.files h.opened).content_length)
      × IsFull (new_file h f).0
unfolding new_file
new_file-IsReady h f (unread, sound, full) v = (
  λ k. ground (arith, unread, v.unread k),
  λ k. update-IsSound h.files h.opened k f sound (v.sound k),
  ground (arith, full),
  λ encoding path i e.
      let old : 0 < (h.files i).content_length =
        v.full encoding path i (ap (lookup path) (sym (new_file-cache_of h f encoding)) ∙ e) in
      ground (arith, full, old),
)

-- What is left of a new file and the one that is served.
add_file-FileFor :
    (h g : FsHandler) (encoding : Encoding) (path : Bytes) (i : ℕ)
    → ((k : ℕ) → readers g k ≡ readers h k)
    → ((k : ℕ) → IsSound (g.files k))
    → 0 < (g.files i).content_length
    → IsFull g
    → FileFor h ((add_file g encoding path i).0, ok (add_file g encoding path i).1)
unfolding add_file
add_file-FileFor h g encoding path i same sound new full =
    elim (Option-cases (lookup path (cache_of g encoding))) [
      | inl absent ↦
          let g' = with_cache g encoding ((path, i) ∷ cache_of g encoding) in
          let (files, opened) = with_cache_keeps g encoding ((path, i) ∷ cache_of g encoding) in
          rw (add_file, absent)
            (add_reader-FileFor h g' i
              (λ k. ap (λ (fs : ℕ → FsFile). (fs k).readers_count) files ∙ same k)
              (λ k. subst (λ (fs : ℕ → FsFile). IsSound (fs k)) (sym files) (sound k))
              (subst (λ (fs : ℕ → FsFile). 0 < (fs i).content_length) (sym files) new))
      | inr (j, here) ↦
          rw (add_file, here) (add_reader-FileFor h g j same sound (full encoding path j here))
    ]

-- The cached file with one reader more, or a handler that is as it was.
abbrev pub FoundOr : FsHandler → FsHandler × Option ℕ → Type 0
FoundOr h (h', some i) = FileFor h (h', ok i)
FoundOr h (h', none) = IsReady h' × ((k : ℕ) → readers h' k ≡ readers h k)

pub find_file-FoundOr :
    (h : FsHandler) (encoding : Encoding) (path : Bytes)
    → IsReady h
    → FoundOr h (find_file h encoding path)
unfolding find_file
find_file-FoundOr h encoding path v = elim (Option-cases (lookup path (cache_of h encoding))) [
  | inr (i, here) ↦
      rw (find_file, here)
        (add_reader-FileFor h h i (λ k. refl) v.sound (v.full encoding path i here))
  | inl absent ↦ rw (find_file, absent) (v, λ k. refl)
]

pub FileFor-same :
    (h h' : FsHandler) (o : FsHandler × Result Reply ℕ)
    → ((k : ℕ) → readers h' k ≡ readers h k)
    → FileFor h' o
    → FileFor h o
FileFor-same h h' (g, ok i) same (more, sound, full) =
    (λ k. omega (arith, more k, same k), sound, full)
FileFor-same h h' (g, err r) same (kept, unread) = (λ k. kept k ∙ same k, unread)

stored-FileFor :
    (h : FsHandler) (encoding : Encoding) (path : Bytes) (f : FsFile)
    → IsNew f
    → IsReady h
    → (b : Bool)
    → let (opened, i) = new_file h f in
      let (stored, j) = add_file opened encoding path i in
      FileFor h (if b then stored else release stored i, ok j)
unfolding new_file
stored-FileFor h encoding path f new v b =
    let (opened, i) = new_file h f in
    let (stored, j) = add_file opened encoding path i in
    let (same, sound, filled, full) = new_file-IsReady h f new v in
    let kept = add_file-FileFor h opened encoding path i same sound filled full in
    elim (Bool-cases b) [
      | inl first ↦ rw first kept
      | inr late ↦ rw late (release-FileFor h stored i j kept)
    ]

pub keep_opened-FileFor :
    (h : FsHandler) (encoding : Encoding) (path : Bytes) (o : Result Reply FsFile)
    → IsReady h
    → OpensOr o
    → FileFor h (keep_opened h encoding path o)
unfolding keep_opened
keep_opened-FileFor h encoding path (err r) v w = (λ k. refl, w)
keep_opened-FileFor h encoding path (ok f) v w =
    let (opened, i) = new_file h f in
    stored-FileFor h encoding path f w v (i == (add_file opened encoding path i).1)
