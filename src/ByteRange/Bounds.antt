-- ===== src/ByteRange/Bounds.antt =====
-- The positions that `ParseByteRange` returns lie in the content.
use justhttp.Base.{
  ℕ, zero, suc, ◌+◌, ◌-◌, ◌^◌, ◌≤◌, ◌<◌, ◌≡◌, refl, ◌∙◌, ◌≢◌, ◌⊎◌, inl, inr, false, Option, none,
  some, [], ◌∷◌, ◌++◌, arith, ltb, leb, ◌==◌, if◌then◌else◌, Bool-cases, take, drop, All, Bytes,
  codes, Lacks, Result, ok, err, ◌>>=◌, index_byte, index_byte-append, take-length-append,
  drop-length-append,
}
use justhttp.Base.Int.{ℤ, pos, negsuc, sub_ℕ}
use justhttp.Bytesconv.Uint.Parse.{IsDigit, value, parse_uint_complete}
use justhttp.ByteRange.{
  RangeError, unsupported_units, start_too_large, strip_prefix, position, range_end, range_bounds,
  range_spec, parse_byte_range,
}

-- The range is in order and inside the content, or it is the empty range behind its end.
abbrev pub Fits : ℕ → ℕ → ℤ → Type 0
Fits content_length start (pos last) =
    (last < content_length)
    × ((start ≤ last) ⊎ (start ≡ content_length) × (last + 1 ≡ content_length))
Fits content_length start (negsuc n) = ⊥

abbrev FitsIn : ℕ → Result RangeError (ℕ × ℤ) → Type 0
FitsIn content_length (ok (start, last)) = Fits content_length start last
FitsIn content_length (err e) = Unit

range_end-FitsIn :
    (start : ℕ) (b : Bytes) (content_length : ℕ)
    → start < content_length
    → FitsIn content_length (range_end start b content_length)
unfolding range_end
range_end-FitsIn start [] content_length h = ground arith
range_end-FitsIn start (c ∷ b) content_length h = ground arith

FitsIn-bind :
    (content_length : ℕ) (m : Result RangeError ℕ) (f : ℕ → Result RangeError (ℕ × ℤ))
    → ((v : ℕ) → FitsIn content_length (f v))
    → FitsIn content_length (m >>= f)
FitsIn-bind content_length (ok v) f h = h v
FitsIn-bind content_length (err e) f h = tt

range_bounds-FitsIn :
    (b : Bytes) (i : Option ℕ) (content_length : ℕ)
    → 0 < content_length
    → FitsIn content_length (range_bounds b i content_length)
unfolding range_bounds
range_bounds-FitsIn b none content_length h = tt
range_bounds-FitsIn b (some zero) content_length h =
    FitsIn-bind content_length (position (drop 1 b)) _ (λ v. ground arith)
range_bounds-FitsIn b (some (suc i)) content_length h =
    FitsIn-bind content_length (position (take (suc i) b)) _ (λ start.
      elim (Bool-cases (leb content_length start)) [
        | inl over ↦ rw over tt
        | inr inside ↦
            rw inside (range_end-FitsIn start (drop (suc (suc i)) b) content_length (ground arith))
      ])

range_spec-FitsIn :
    (b : Bytes) (content_length : ℕ)
    → 0 < content_length
    → FitsIn content_length (range_spec b content_length)
unfolding range_spec
range_spec-FitsIn [] content_length h = tt
range_spec-FitsIn (c ∷ b) content_length h = elim (Bool-cases (c == b'=')) [
  | inl here ↦ rw here (range_bounds-FitsIn b (index_byte b b'-') content_length h)
  | inr absent ↦ rw absent tt
]

parse_byte_range-FitsIn :
    (b : Bytes) (content_length : ℕ)
    → 0 < content_length
    → FitsIn content_length (parse_byte_range b content_length)
unfolding parse_byte_range
parse_byte_range-FitsIn b content_length h = after (strip_prefix (codes "bytes") b)
  where
    after :
        (o : Option Bytes)
        → FitsIn content_length
            (elim o [ none ↦ err unsupported_units | some r ↦ range_spec r content_length ])
    after none = tt
    after (some r) = range_spec-FitsIn r content_length h

-- Of a content that is not empty, a range that `ParseByteRange` returns ends before the content's
-- end, and starts at or before its own end, or it is the empty range right behind the content.
pub parse_byte_range-Fits :
    (b : Bytes) (content_length : ℕ) {start : ℕ} {last : ℤ}
    → 0 < content_length
    → parse_byte_range b content_length ≡ ok (start, last)
    → Fits content_length start last
parse_byte_range-Fits b content_length h e = rw e at (parse_byte_range-FitsIn b content_length h)

digits-Lacks : (s : Bytes) → All IsDigit s → Lacks b'-' s
digits-Lacks [] h = tt
digits-Lacks (c ∷ s) (hc, hs) = (omega arith, digits-Lacks s hs)

position_digits :
    (s : Bytes) → s ≢ [] → All IsDigit s → value 0 s < 2 ^ 63 → position s ≡ ok (value 0 s)
unfolding position
position_digits s ne ds fits = rw (position, parse_uint_complete s ne ds fits)

-- The two sides of a range "bytes=s-t".
range_bounds_split :
    (s t : Bytes) (content_length : ℕ)
    → s ≢ []
    → All IsDigit s
    → parse_byte_range (codes "bytes=" ++ (s ++ b'-' ∷ t)) content_length ≡ (
        position s >>= λ start.
        if leb content_length start then err start_too_large else range_end start t content_length)
unfolding parse_byte_range range_bounds
range_bounds_split [] t content_length ne ds = absurd (ne refl)
range_bounds_split (c ∷ s) t content_length ne ds =
    rw (index_byte-append (c ∷ s) t b'-' (digits-Lacks (c ∷ s) ds))
      (rw (take-length-append s (b'-' ∷ t), drop-length-append s b'-' t) refl)

range_end_digits :
    (start : ℕ) (t : Bytes) (content_length : ℕ)
    → t ≢ []
    → All IsDigit t
    → value 0 t < 2 ^ 63
    → start ≤ value 0 t
    → start < content_length
    → range_end start t content_length
      ≡ ok (start, pos (if leb content_length (value 0 t) then content_length - 1 else value 0 t))
unfolding range_end
range_end_digits start [] content_length ne ds fits le inside = absurd (ne refl)
range_end_digits start (c ∷ t) content_length ne ds fits le inside =
    rw (range_end, position_digits (c ∷ t) ne ds fits) (ground arith)

-- "bytes=s-t", with digits that spell a start inside the content and an end that is not before it,
-- gives this start, and this end or the content's last position if that comes first.
pub parse_byte_range_both :
    (s t : Bytes) (content_length : ℕ)
    → (s ≢ []) × (t ≢ [])
    → All IsDigit s × All IsDigit t
    → (value 0 s < content_length) × (value 0 s ≤ value 0 t) × (value 0 t < 2 ^ 63)
    → parse_byte_range (codes "bytes=" ++ (s ++ b'-' ∷ t)) content_length
      ≡ ok (
        value 0 s,
        pos (if leb content_length (value 0 t) then content_length - 1 else value 0 t),
      )
parse_byte_range_both s t content_length ne ds h =
    range_bounds_split s t content_length ne.0 ds.0
    ∙ rw (position_digits s ne.0 ds.0 (omega arith)) (
        rw (leb_false content_length (value 0 s) h.0)
          (range_end_digits (value 0 s) t content_length ne.1 ds.1 h.2 h.1 h.0))
  where
    leb_false : (a b : ℕ) → b < a → leb a b ≡ false
    leb_false a b lt = ground arith

range_suffix :
    (t : Bytes) (content_length : ℕ)
    → parse_byte_range (codes "bytes=-" ++ t) content_length ≡ (
        position t >>= λ v.
        ok (if ltb content_length v then 0 else content_length - v, sub_ℕ content_length 1))
unfolding parse_byte_range range_bounds index_byte
range_suffix t content_length = refl

-- A suffix "bytes=-t" whose digits spell 0 is taken for a range that starts behind the content and
-- ends at its last position.
pub parse_byte_range_empty_suffix :
    (t : Bytes) (content_length : ℕ)
    → t ≢ []
    → All IsDigit t
    → value 0 t ≡ 0
    → parse_byte_range (codes "bytes=-" ++ t) content_length
      ≡ ok (content_length, sub_ℕ content_length 1)
parse_byte_range_empty_suffix t content_length ne ds zero_value =
    range_suffix t content_length
    ∙ rw (position_digits t ne ds (omega arith), zero_value) (ground arith)
