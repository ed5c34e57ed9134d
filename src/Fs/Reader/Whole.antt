-- ===== src/Fs/Reader/Whole.antt =====
-- What `WriteTo` writes.
use justhttp.Base.{
  ℕ, zero, suc, ◌+◌, ◌-◌, ◌≤◌, ◌<◌, ◌≡◌, refl, sym, ap, ◌∙◌, inl, inr, true, ◌&&◌, Option, none,
  some, List, [], ◌∷◌, ◌++◌, append-nil, append_assoc, arith, ltb, leb, ◌==◌, if◌then◌else◌, leb→le,
  ==_iff, Bool-cases, length, take, drop, length-take, length-drop, Bytes,
}
use Prim.Native.Nat.{min}
use justhttp.Fs.Reader.{ReadError, eof, opened, generated, SmallReader, write_rounds, write_to}

-- The bytes from one position up to another.
abbrev pub slice : Bytes → ℕ → ℕ → Bytes
slice c start stop = take (stop - start) (drop start c)

-- `ReadAt` of a file that holds `c`: it reads all that is asked, or tells that the file ends.
abbrev pub read_at_of : Bytes → ℕ → ℕ → Bytes × Option ReadError
read_at_of c start n =
    let b = take n (drop start c) in (b, if ltb (length b) n then some eof else none)

take-nil {ℓ} : {A : Type ℓ} (n : ℕ) → take {A = A} n [] ≡ []
take-nil zero = refl
take-nil (suc n) = refl

drop-nil {ℓ} : {A : Type ℓ} (n : ℕ) → drop {A = A} n [] ≡ []
drop-nil zero = refl
drop-nil (suc n) = refl

take-take-drop {ℓ} :
    {A : Type ℓ} (n m : ℕ) (xs : List A) → take n xs ++ take m (drop n xs) ≡ take (n + m) xs
take-take-drop zero m xs = ap (λ k. take k xs) (omega arith)
take-take-drop (suc n) m [] = take-nil m ∙ sym (take-nil (suc n + m))
take-take-drop (suc n) m (x ∷ xs) =
    let sum : suc n + m ≡ suc (n + m) = omega arith in
    ap (◌∷◌ x) (take-take-drop n m xs) ∙ sym (ap (λ k. take k (x ∷ xs)) sum)

drop-drop {ℓ} : {A : Type ℓ} (n m : ℕ) (xs : List A) → drop n (drop m xs) ≡ drop (m + n) xs
drop-drop n zero xs = ap (λ k. drop k xs) (omega arith)
drop-drop n (suc m) [] = drop-nil n ∙ sym (drop-nil (suc m + n))
drop-drop n (suc m) (x ∷ xs) =
    let sum : suc m + n ≡ suc (m + n) = omega arith in
    drop-drop n m xs ∙ sym (ap (λ k. drop k (x ∷ xs)) sum)

-- Two slices, one behind the other.
slice_join :
    (c : Bytes) (a n stop : ℕ)
    → a + n ≤ stop
    → take n (drop a c) ++ slice c (a + n) stop ≡ slice c a stop
slice_join c a n stop h =
    ap (λ r. take n (drop a c) ++ take (stop - (a + n)) r) (sym (drop-drop n a c))
    ∙ take-take-drop n (stop - (a + n)) (drop a c)
    ∙ ap (λ k. take k (drop a c)) (omega arith)

slice_empty : (c : Bytes) (a stop : ℕ) → stop ≤ a → slice c a stop ≡ []
slice_empty c a stop h =
    let none_left : stop - a ≡ 0 = omega arith in ap (λ k. take k (drop a c)) none_left

==_refl : (n : ℕ) → (n == n) ≡ true
==_refl n = (==_iff n n).1 refl

-- `ReadAt` inside the file reads all that is asked.
read_at_inside :
    (c : Bytes) (start n : ℕ)
    → start + n ≤ length c
    → (length (take n (drop start c)) ≡ n) × (read_at_of c start n ≡ (take n (drop start c), none))
read_at_inside c start n h =
    let full : length (take n (drop start c)) ≡ n =
      omega (arith, length-take n (drop start c), length-drop start c) in
    (full, rw full (ap (λ e. (take n (drop start c), e)) (ground arith)))

module _ (write : Bytes → Bytes → Bytes × ℕ × Option ReadError)
    (writes_all : (w b : Bytes) → write w b ≡ (w ++ b, length b, none)) (c : Bytes)
    (read_at : ℕ → ℕ → Bytes × Option ReadError)
    (reads : (start n : ℕ) → read_at start n ≡ read_at_of c start n) where
  write_rounds_whole :
      (rounds : ℕ) (w : Bytes) (cur buf stop : ℕ)
      → 0 < buf
      → cur ≤ stop
      → stop ≤ length c
      → stop - cur < rounds
      → write_rounds write read_at stop rounds w cur buf none
        ≡ some (w ++ slice c cur stop, stop, none)
  unfolding write_rounds
  write_rounds_whole zero w cur buf stop hb hc hs hr = absurd (omega arith)
  write_rounds_whole (suc rounds) w cur buf stop hb hc hs hr = elim (Bool-cases (leb stop cur)) [
    | inl done ↦
        rw (done, slice_empty c cur stop (leb→le stop cur done), append-nil w)
          (ap (λ k. some (w, k, none)) (ground arith))
    | inr more ↦
        let n = min buf (stop - cur) in
        let inside : cur + n ≤ stop = ground arith in
        let (full, answer) = read_at_inside c cur n (omega arith) in
        rw (more, reads cur n ∙ answer, writes_all w (take n (drop cur c)), full)
          (rw (==_refl n) (
            write_rounds_whole rounds (w ++ take n (drop cur c)) (cur + n) n stop (ground arith)
              inside hs (ground arith)
            ∙ ap (λ r. some (r, stop, none))
                (append_assoc w (take n (drop cur c)) (slice c (cur + n) stop)
                  ∙ ap (λ r. w ++ r) (slice_join c cur n stop inside))))
  ]

  -- `WriteTo` writes the slice of an open file that the reader stands for.
  write_to_opened :
      (r : SmallReader) (buf rounds : ℕ) (w : Bytes)
      → 0 < buf
      → (r.start_pos ≤ r.end_pos) × (r.end_pos ≤ length c)
      → r.end_pos - r.start_pos < rounds
      → write_to write (opened read_at) r buf rounds w
        ≡ some (w ++ slice c r.start_pos r.end_pos, r.end_pos - r.start_pos, none)
  unfolding write_to
  write_to_opened r buf rounds w hb h hr =
      rw (write_to, write_rounds_whole rounds w r.start_pos buf r.end_pos hb h.0 h.1 hr) refl

-- A reader whose positions are in order and inside what it reads writes exactly the bytes between
-- them, reports their number and no error, and does not panic, to a writer that takes everything
-- and is no `io.ReaderFrom`: a generated page at once, an open file in rounds with any buffer that
-- is not empty, if there may be more rounds than bytes.
pub write_to_whole :
    (write : Bytes → Bytes → Bytes × ℕ × Option ReadError)
    (read_at : ℕ → ℕ → Bytes × Option ReadError) (c : Bytes) (r : SmallReader) (buf rounds : ℕ)
    (w : Bytes)
    → ((w b : Bytes) → write w b ≡ (w ++ b, length b, none))
    → ((start n : ℕ) → read_at start n ≡ read_at_of c start n)
    → 0 < buf
    → (r.start_pos ≤ r.end_pos) × (r.end_pos ≤ length c)
    → r.end_pos - r.start_pos < rounds
    → (write_to write (opened read_at) r buf rounds w
        ≡ some (w ++ slice c r.start_pos r.end_pos, r.end_pos - r.start_pos, none))
      × (write_to write (generated c) r buf rounds w
          ≡ some (w ++ slice c r.start_pos r.end_pos, r.end_pos - r.start_pos, none))
unfolding write_to
write_to_whole write read_at c r buf rounds w writes_all reads hb h hr =
    let n = r.end_pos - r.start_pos in
    let (full, answer) = read_at_inside c r.start_pos n (omega arith) in
    let inside : (leb r.start_pos r.end_pos && leb r.end_pos (length c)) ≡ true = ground arith in
    (
      write_to_opened write writes_all c read_at reads r buf rounds w hb h hr,
      rw (inside, writes_all w (slice c r.start_pos r.end_pos), full) refl,
    )
