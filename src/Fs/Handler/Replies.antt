-- ===== src/Fs/Handler/Replies.antt =====
-- What a static file is answered with.
use justhttp.Base.{
  ℕ, ◌+◌, ◌-◌, ◌≤◌, ◌<◌, ◌≡◌, refl, sym, ap, ◌∙◌, ◌⊎◌, inl, inr, Bool, true, false, not, ◌&&◌,
  Option, none, some, arith, ltb, if◌then◌else◌, Bool-cases, length, Bytes, Result, ok, err,
}
use justhttp.Base.Int.{ℤ, pos, negsuc}
use justhttp.ByteRange.{RangeError, parse_byte_range}
use justhttp.ByteRange.Bounds.{Fits, parse_byte_range-Fits}
use justhttp.Fs.Cache.{
  FsFile, FsHandler, Encoding, with_file, dec_readers_count, is_big, no_reader, new_reader,
  close_reader,
}
use justhttp.Fs.Reader.{behind, update_byte_range}
use justhttp.Fs.Handler.{
  Settings, Asked, Answer, Reply, failed, path_not_found, redirected, not_modified, answered, span,
  if_modified_since, answer, give_up, whole, answer_part, answer_range, serve,
}

-- An answer with a content of the given length: the reader is inside the content, `Content-Length`
-- is the number of its bytes, and it reads all with status 200, or the range of `Content-Range`
-- with status 206.
abbrev pub Spans : ℕ → Answer → Type 0
Spans size r =
    (r.reader.start_pos ≤ r.reader.end_pos)
    × (r.reader.end_pos ≤ size)
    × (r.content_length ≡ pos (r.reader.end_pos - r.reader.start_pos))
    × ((r.status_code ≡ 200)
          × (r.content_range ≡ none)
          × (r.reader.start_pos ≡ 0)
          × (r.reader.end_pos ≡ size)
        ⊎ (r.status_code ≡ 206)
          × ((last : ℤ) × (r.content_range ≡ some (r.reader.start_pos, last))
              × (r.reader.end_pos ≡ behind last)))

abbrev pub ReplySpans : ℕ → Option (FsHandler × Reply) → Type 0
ReplySpans size none = Unit
ReplySpans size (some (h, failed n)) = Unit
ReplySpans size (some (h, path_not_found)) = Unit
ReplySpans size (some (h, redirected uri)) = Unit
ReplySpans size (some (h, not_modified)) = Unit
ReplySpans size (some (h, answered r)) = Spans size r

whole-Spans :
    (f : FsFile) (i : ℕ) (encoding : Encoding) → Spans f.content_length (whole f i encoding)
unfolding whole
whole-Spans f i encoding =
    (omega arith, omega arith, ap pos (omega arith), inl (refl, refl, refl, refl))

-- A range that fits, for any answer.
range-Spans :
    (size start : ℕ) (last : ℤ) (r : Answer)
    → Fits size start last
    → Spans size (record r {
      status_code = 206;
      content_length = span start last;
      reader = update_byte_range r.reader start last;
      content_range = some (start, last);
    })
unfolding update_byte_range
range-Spans size start (pos last) r (inside, order) =
    let le : start ≤ last + 1 = elim order [
      | inl o ↦ omega arith
      | inr o ↦ omega (arith, o.0, o.1)
    ] in
    (le, omega arith, ground arith, inr (refl, (pos last, refl, refl)))
range-Spans size start (negsuc n) r fits = absurd fits

closed-ReplySpans :
    (size : ℕ) (o : Option FsHandler) (reply : Reply)
    → ((h : FsHandler) → ReplySpans size (some (h, reply)))
    → ReplySpans size (elim o [ none ↦ none | some c ↦ some (c, reply) ])
closed-ReplySpans size none reply v = tt
closed-ReplySpans size (some c) reply v = v c

module _ (h : FsHandler) (i : ℕ) (a : Asked) (size : ℕ) where
  give_up-ReplySpans : (n : ℕ) → ReplySpans size (give_up h i a n)
  unfolding give_up
  give_up-ReplySpans n = closed-ReplySpans size (close_reader h i a.rewinds) (failed n) (λ c. tt)

  answer-ReplySpans : (r : Answer) → Spans size r → ReplySpans size (answer h i a r)
  unfolding answer
  answer-ReplySpans r v = elim (Bool-cases a.is_head) [
    | inr body ↦ rw (answer, body) v
    | inl head ↦
        rw (answer, head)
          (closed-ReplySpans size (close_reader h i a.rewinds)
            (if is_big (h.files i) && not a.rewinds
              then failed 500
              else answered (record r { streamed = false }))
            (λ c. unseen c (is_big (h.files i) && not a.rewinds)))
  ]
    where
      unseen :
          (c : FsHandler) (b : Bool)
          → ReplySpans size
              (some (c, if b then failed 500 else answered (record r { streamed = false })))
      unseen c true = tt
      unseen c false = v

  answer_part-ReplySpans :
      (r : Answer) (start : ℕ) (last : ℤ)
      → Fits size start last
      → ReplySpans size (answer_part h i a r start last)
  unfolding answer_part
  answer_part-ReplySpans r start (negsuc n) fits = tt
  answer_part-ReplySpans r start (pos last) fits =
      answer-ReplySpans _ (range-Spans size start (pos last) r fits)

  ranged-ReplySpans :
      (r : Answer) (b : Bool) (o : Result RangeError (ℕ × ℤ))
      → ((start : ℕ) (last : ℤ) → o ≡ ok (start, last) → Fits size start last)
      → ReplySpans size (elim o [
        | err e ↦ give_up h i a 416
        | ok (start, last) ↦ if b then give_up h i a 500 else answer_part h i a r start last
      ])
  ranged-ReplySpans r b (err e) fits = give_up-ReplySpans 416
  ranged-ReplySpans r true (ok (start, last)) fits = give_up-ReplySpans 500
  ranged-ReplySpans r false (ok (start, last)) fits =
      answer_part-ReplySpans r start last (fits start last refl)

answer_range-ReplySpans :
    (h : FsHandler) (i size : ℕ) (s : Settings) (a : Asked) (r : Answer)
    → (h.files i).content_length ≡ size
    → 0 < size
    → Spans size r
    → ReplySpans size (answer_range h i s a r)
unfolding answer_range
answer_range-ReplySpans h i size s a r same full v =
    elim (Bool-cases (s.accept_byte_range && ltb 0 (length a.byte_range))) [
      | inr plain ↦ rw (answer_range, plain) (answer-ReplySpans h i a size r v)
      | inl ranged ↦
          rw (answer_range, ranged)
            (ranged-ReplySpans h i a size r (is_big (h.files i) && not a.seeks)
              (parse_byte_range a.byte_range (h.files i).content_length)
              (λ start last e.
                parse_byte_range-Fits a.byte_range size full
                  (sym (ap (parse_byte_range a.byte_range) same) ∙ e)))
    ]

-- `NewReader` leaves the content's length alone.
abbrev pub KeepsLength : FsHandler → ℕ → Option (FsHandler × Bool) → Type 0
KeepsLength h i none = Unit
KeepsLength h i (some (h', done)) = (h'.files i).content_length ≡ (h.files i).content_length

no_reader-KeepsLength :
    (h : FsHandler) (i : ℕ) → KeepsLength h i (no_reader (dec_readers_count h i))
unfolding dec_readers_count
no_reader-KeepsLength h i = elim (Bool-cases (ltb 0 (h.files i).readers_count)) [
  | inl more ↦ rw (dec_readers_count, more) (ground arith)
  | inr nobody ↦ rw (dec_readers_count, nobody) tt
]

pub new_reader-KeepsLength :
    (h : FsHandler) (i : ℕ) (opens : Bool) → KeepsLength h i (new_reader h i opens)
unfolding new_reader
new_reader-KeepsLength h i opens =
    keeps (is_big (h.files i)) (h.files i).has_file (ltb 0 (h.files i).big_files) opens
  where
    keeps :
        (big has_file idle opens : Bool)
        → KeepsLength h i (
            if not big
            then some (h, true)
            else if not has_file
            then none
            else if idle
            then some
                (with_file h i (record (h.files i) { big_files = (h.files i).big_files - 1 }), true)
            else if opens
            then some (h, true)
            else no_reader (dec_readers_count h i))
    keeps false has_file idle opens = refl
    keeps true false idle opens = tt
    keeps true true true opens = ground arith
    keeps true true false true = refl
    keeps true true false false = no_reader-KeepsLength h i

-- A file that is not empty is answered, if it is, with a reader whose bytes lie in the file and
-- with their number as content length: with status 200 all of them and no content range, or with
-- status 206 those of the content range.
pub serve-ReplySpans :
    (parse_http_date : Bytes → Option ℕ) (h : FsHandler) (i : ℕ) (s : Settings) (a : Asked)
    (encoding : Encoding)
    → 0 < (h.files i).content_length
    → ReplySpans (h.files i).content_length (serve parse_http_date h i s a encoding)
unfolding serve
serve-ReplySpans parse_http_date h i s a encoding full =
    elim (Bool-cases
      (if_modified_since parse_http_date a.if_modified_since (h.files i).last_modified)) [
        | inr fresh ↦
            rw (serve, fresh)
              (closed-ReplySpans (h.files i).content_length (dec_readers_count h i) not_modified
                (λ c. tt))
        | inl stale ↦
            rw (serve, stale) (after (new_reader h i a.opens) (new_reader-KeepsLength h i a.opens))
      ]
  where
    after :
        (o : Option (FsHandler × Bool))
        → KeepsLength h i o
        → ReplySpans (h.files i).content_length (elim o [
          | none ↦ none
          | some (h', false) ↦ some (h', failed 500)
          | some (h', true) ↦ answer_range h' i s a (whole (h.files i) i encoding)
        ])
    after none v = tt
    after (some (h', false)) v = tt
    after (some (h', true)) v =
        answer_range-ReplySpans h' i (h.files i).content_length s a (whole (h.files i) i encoding) v
          full (whole-Spans (h.files i) i encoding)
