-- ===== src/Fs/Handler/Readers.antt =====
-- The readers that `handleRequest` leaves behind.
use justhttp.Base.{
  ℕ, ◌+◌, ◌-◌, ◌<◌, ◌≡◌, refl, ◌∙◌, inl, inr, Bool, true, false, not, ◌&&◌, Option, none, some,
  arith, ltb, ◌==◌, if◌then◌else◌, lt→ltb, Bool-cases, length, Bytes, Result, ok, err,
}
use justhttp.Base.Int.{ℤ, pos, negsuc}
use justhttp.ByteRange.{RangeError, parse_byte_range}
use justhttp.Fs.Cache.{
  FsFile, FsHandler, Encoding, with_file, dec_readers_count, is_big, no_reader, new_reader,
  close_reader,
}
use justhttp.ByteRange.Bounds.{Fits, parse_byte_range-Fits}
use justhttp.Fs.Handler.Replies.{KeepsLength, new_reader-KeepsLength}
use justhttp.Fs.Handler.{
  Settings, Asked, Answer, Reply, failed, path_not_found, redirected, not_modified, answered,
  if_modified_since, answer, give_up, whole, answer_part, answer_range, serve,
}

-- How many readers of a file a handler counts, and one if it is the other file.
abbrev pub readers : FsHandler → ℕ → ℕ
readers h k = (h.files k).readers_count

abbrev pub one_of : ℕ → ℕ → ℕ
one_of i k = if i == k then 1 else 0

-- How many readers of the file a reply hands to the response.
abbrev pub streaming : Reply → ℕ → ℕ
streaming (answered r) k = if r.streamed then one_of r.file k else 0
streaming (failed n) k = 0
streaming path_not_found k = 0
streaming (redirected uri) k = 0
streaming not_modified k = 0

-- One reader of the file fewer.
abbrev Fewer : FsHandler → ℕ → Option FsHandler → Type 0
Fewer h i none = ⊥
Fewer h i (some h') = (k : ℕ) → readers h' k + one_of i k ≡ readers h k

dec_readers_count-Fewer :
    (h : FsHandler) (i : ℕ) → 0 < readers h i → Fewer h i (dec_readers_count h i)
unfolding dec_readers_count
dec_readers_count-Fewer h i counted =
    rw (lt→ltb 0 (readers h i) counted) (λ k. ground (arith, counted))

Fewer-same :
    (h g : FsHandler) (i : ℕ) (o : Option FsHandler)
    → ((k : ℕ) → readers g k ≡ readers h k)
    → Fewer g i o
    → Fewer h i o
Fewer-same h g i none same v = v
Fewer-same h g i (some h') same v = λ k. v k ∙ same k

close_reader-Fewer :
    (h : FsHandler) (i : ℕ) (seeks : Bool) → 0 < readers h i → Fewer h i (close_reader h i seeks)
unfolding close_reader dec_readers_count
close_reader-Fewer h i seeks counted = closes (is_big (h.files i) && seeks)
  where
    closes :
        (b : Bool)
        → Fewer h i (
            dec_readers_count
              (if b
                then with_file h i (record (h.files i) { big_files = (h.files i).big_files + 1 })
                else h)
              i)
    closes false = dec_readers_count-Fewer h i counted
    closes true =
        let g = with_file h i (record (h.files i) { big_files = (h.files i).big_files + 1 }) in
        let same : (k : ℕ) → readers g k ≡ readers h k = λ k. ground arith in
        Fewer-same h g i (dec_readers_count g i) same
          (dec_readers_count-Fewer g i (omega (arith, same i)))

-- The file keeps its reader if there is one, and loses it if not.
abbrev Taken : FsHandler → ℕ → Option (FsHandler × Bool) → Type 0
Taken h i none = ⊥
Taken h i (some (h', done)) =
    (k : ℕ) → readers h' k + (if done then 0 else one_of i k) ≡ readers h k

no_reader-Taken :
    (h : FsHandler) (i : ℕ) (o : Option FsHandler) → Fewer h i o → Taken h i (no_reader o)
no_reader-Taken h i none v = v
no_reader-Taken h i (some d) v = v

new_reader-Taken :
    (h : FsHandler) (i : ℕ) (opens : Bool)
    → 0 < readers h i
    → (is_big (h.files i) ≡ true → (h.files i).has_file ≡ true)
    → Taken h i (new_reader h i opens)
unfolding new_reader
new_reader-Taken h i opens counted sound =
    takes (is_big (h.files i)) (h.files i).has_file (ltb 0 (h.files i).big_files) opens sound
  where
    takes :
        (big has_file idle opens : Bool)
        → (big ≡ true → has_file ≡ true)
        → Taken h i (
            if not big
            then some (h, true)
            else if not has_file
            then none
            else if idle
            then some
                (with_file h i (record (h.files i) { big_files = (h.files i).big_files - 1 }), true)
            else if opens
            then some (h, true)
            else no_reader (dec_readers_count h i))
    takes false has_file idle opens s = λ k. omega arith
    takes true false idle opens s = cc (s refl)
    takes true true true opens s = λ k. ground arith
    takes true true false true s = λ k. omega arith
    takes true true false false s =
        no_reader-Taken h i (dec_readers_count h i) (dec_readers_count-Fewer h i counted)

-- Of a file with a reader counted for the request: the reader is handed to the response, or it is
-- gone.
abbrev pub Settled : FsHandler → ℕ → Option (FsHandler × Reply) → Type 0
Settled h i none = ⊥
Settled h i (some (h', reply)) =
    (k : ℕ) → readers h' k + one_of i k ≡ readers h k + streaming reply k

module _ (h : FsHandler) (i : ℕ) (a : Asked) (counted : 0 < readers h i) where
  -- The reader is closed, with a reply that has none.
  closed-Settled :
      (o : Option FsHandler) (reply : Reply)
      → ((k : ℕ) → streaming reply k ≡ 0)
      → Fewer h i o
      → Settled h i (elim o [ none ↦ none | some c ↦ some (c, reply) ])
  closed-Settled none reply unread v = v
  closed-Settled (some c) reply unread v = λ k. omega (arith, v k, unread k)

  give_up-Settled : (n : ℕ) → Settled h i (give_up h i a n)
  unfolding give_up
  give_up-Settled n =
      closed-Settled (close_reader h i a.rewinds) (failed n) (λ k. refl)
        (close_reader-Fewer h i a.rewinds counted)

  answer-Settled : (r : Answer) → r.file ≡ i → r.streamed ≡ true → Settled h i (answer h i a r)
  unfolding answer
  answer-Settled r same streamed = elim (Bool-cases a.is_head) [
    | inr body ↦ rw (answer, body) (λ k. ground (arith, same, streamed))
    | inl head ↦
        rw (answer, head)
          (closed-Settled (close_reader h i a.rewinds)
            (if is_big (h.files i) && not a.rewinds
              then failed 500
              else answered (record r { streamed = false }))
            (λ k. unread k (is_big (h.files i) && not a.rewinds))
            (close_reader-Fewer h i a.rewinds counted))
  ]
    where
      unread :
          (k : ℕ) (b : Bool)
          → streaming (if b then failed 500 else answered (record r { streamed = false })) k ≡ 0
      unread k true = refl
      unread k false = refl

  answer_part-Settled :
      (r : Answer) (start : ℕ) (last : ℤ)
      → Fits (h.files i).content_length start last
      → r.file ≡ i
      → r.streamed ≡ true
      → Settled h i (answer_part h i a r start last)
  unfolding answer_part
  answer_part-Settled r start (negsuc n) fits same streamed = absurd fits
  answer_part-Settled r start (pos last) fits same streamed = answer-Settled _ same streamed

  ranged-Settled :
      (r : Answer) (b : Bool) (o : Result RangeError (ℕ × ℤ))
      → ((start : ℕ) (last : ℤ) → o ≡ ok (start, last) → Fits (h.files i).content_length start last)
      → r.file ≡ i
      → r.streamed ≡ true
      → Settled h i (elim o [
        | err e ↦ give_up h i a 416
        | ok (start, last) ↦ if b then give_up h i a 500 else answer_part h i a r start last
      ])
  ranged-Settled r b (err e) fits same streamed = give_up-Settled 416
  ranged-Settled r true (ok (start, last)) fits same streamed = give_up-Settled 500
  ranged-Settled r false (ok (start, last)) fits same streamed =
      answer_part-Settled r start last (fits start last refl) same streamed

  answer_range-Settled :
      (s : Settings) (r : Answer)
      → 0 < (h.files i).content_length
      → r.file ≡ i
      → r.streamed ≡ true
      → Settled h i (answer_range h i s a r)
  unfolding answer_range
  answer_range-Settled s r full same streamed =
      elim (Bool-cases (s.accept_byte_range && ltb 0 (length a.byte_range))) [
        | inr plain ↦ rw (answer_range, plain) (answer-Settled r same streamed)
        | inl ranged ↦
            rw (answer_range, ranged)
              (ranged-Settled r (is_big (h.files i) && not a.seeks)
                (parse_byte_range a.byte_range (h.files i).content_length)
                (λ start last e.
                  parse_byte_range-Fits a.byte_range (h.files i).content_length full e)
                same streamed)
      ]

-- From the file to the end.
Settled-taken :
    (h h' : FsHandler) (i : ℕ) (o : Option (FsHandler × Reply))
    → ((k : ℕ) → readers h' k + 0 ≡ readers h k)
    → Settled h' i o
    → Settled h i o
Settled-taken h h' i none same v = v
Settled-taken h h' i (some (g, reply)) same v = λ k. omega (arith, v k, same k)

-- A file that is big is a file of the system.
abbrev pub IsSound : FsFile → Type 0
IsSound f = is_big f ≡ true → f.has_file ≡ true

pub serve-Settled :
    (parse_http_date : Bytes → Option ℕ) (h : FsHandler) (i : ℕ) (s : Settings) (a : Asked)
    (encoding : Encoding)
    → 0 < readers h i
    → IsSound (h.files i)
    → 0 < (h.files i).content_length
    → Settled h i (serve parse_http_date h i s a encoding)
unfolding serve whole
serve-Settled parse_http_date h i s a encoding counted sound full =
    elim (Bool-cases
      (if_modified_since parse_http_date a.if_modified_since (h.files i).last_modified)) [
        | inr fresh ↦
            rw (serve, fresh)
              (closed-Settled h i a counted (dec_readers_count h i) not_modified (λ k. refl)
                (dec_readers_count-Fewer h i counted))
        | inl stale ↦
            rw (serve, stale)
              (after (new_reader h i a.opens) (new_reader-Taken h i a.opens counted sound)
                (new_reader-KeepsLength h i a.opens))
      ]
  where
    after :
        (o : Option (FsHandler × Bool))
        → Taken h i o
        → KeepsLength h i o
        → Settled h i (elim o [
          | none ↦ none
          | some (h', false) ↦ some (h', failed 500)
          | some (h', true) ↦ answer_range h' i s a (whole (h.files i) i encoding)
        ])
    after none v same = v
    after (some (h', false)) v same = λ k. omega (arith, v k)
    after (some (h', true)) v same = Settled-taken h h' i _ v (
        answer_range-Settled h' i a (omega (arith, v i)) s (whole (h.files i) i encoding)
          (omega (arith, full, same)) refl refl)
