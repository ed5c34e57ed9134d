-- ===== src/Bytesconv/Uint/Parse.antt =====
-- What `ParseUint` accepts, and what it returns.
use mathlib.Core.List.{cons-ne-nil}
use justhttp.Base.{
  ℕ, suc, ◌+◌, ◌-◌, ◌*◌, ◌%◌, ◌^◌, ◌≤◌, ◌<◌, ◌≡◌, refl, ◌≢◌, ◌⊎◌, inr, [], ◌∷◌, ◌++◌, append-nil,
  arith, length, length-append, All, Bytes, IsByte, ok, err,
}
use justhttp.Bytesconv.Uint.{
  parsed, scan_uint, parse_uint, IntError, empty_int, unexpected_trailing_char, UintScan, refused,
  whole,
}

abbrev pub IsDigit : ℕ → Type 0
IsDigit c = (b'0' ≤ c) × (c ≤ b'9')

-- The number that digits spell behind `n`, with no bound.
abbrev pub value : ℕ → Bytes → ℕ
value n [] = n
value n (c ∷ s) = value (10 * n + (c - b'0')) s

pub le-value : (s : Bytes) (n : ℕ) → n ≤ value n s
le-value [] n = omega arith
le-value (c ∷ s) n = omega (arith, le-value s (10 * n + (c - b'0')))

-- Wrapping a partial value does not change the whole one modulo 2 ^ 64.
value-mod :
    (s : Bytes) (n m : ℕ) → n % 2 ^ 64 ≡ m % 2 ^ 64 → value n s % 2 ^ 64 ≡ value m s % 2 ^ 64
value-mod [] n m h = h
value-mod (c ∷ s) n m h = value-mod s _ _ (omega arith)

-- Digits are read without an error as long as the value fits.
scan_uint-append :
    (s rest : Bytes) (i n : ℕ)
    → All IsDigit s
    → value n s < 2 ^ 63
    → scan_uint i n (s ++ rest) ≡ scan_uint (i + length s) (value n s) rest
unfolding scan_uint
scan_uint-append [] rest i n h fits = let e : i + 0 ≡ i = omega arith in rw e
scan_uint-append (c ∷ s) rest i n (hc, hs) fits =
    let m = 10 * n + (c - b'0') in
    let e : i + 1 + length s ≡ i + suc (length s) = omega arith in
    rw (← e) (ground (arith, scan_uint-append s rest (i + 1) m hs fits, le-value s m))

scan_sound :
    (s : Bytes) (i n r j : ℕ)
    → All IsByte s
    → n < 2 ^ 63
    → scan_uint i n s ≡ parsed r j
    → j ≡ i + length s
    → All IsDigit s × (r ≡ value n s % 2 ^ 64) × (r < 2 ^ 63)
unfolding scan_uint
scan_sound [] i n r j bs small h e = ground arith
scan_sound (c ∷ s) i n r j (bc, bs) small h e =
    let sum = (10 * n + (c + 256 - b'0') % 256) % 2 ^ 64 in
    ground (arith, scan_sound s (i + 1) sum r j bs, value-mod s sum (10 * n + (c - b'0')))

scan_uint-digits :
    (s : Bytes) (i n : ℕ)
    → All IsDigit s
    → value n s < 2 ^ 63
    → scan_uint i n s ≡ parsed (value n s) (i + length s)
unfolding scan_uint
scan_uint-digits s i n ds fits = rw (append-nil s) at (scan_uint-append s [] i n ds fits)

-- An error leaves the rest of the text unread.
scan_uint-refused :
    (s : Bytes) (i n j : ℕ) {e : IntError} → scan_uint i n s ≡ refused e j → j < i + length s
unfolding scan_uint
scan_uint-refused [] i n j h = cc
scan_uint-refused (c ∷ s) i n j {e} h =
    let sum = (10 * n + (c + 256 - b'0') % 256) % 2 ^ 64 in
    ground (arith, scan_uint-refused s (i + 1) sum j {e = e})

pub value-append : (s t : Bytes) (n : ℕ) → value n (s ++ t) ≡ value (value n s) t
value-append [] t n = refl
value-append (c ∷ s) t n = value-append s t (10 * n + (c - b'0'))

pub length-snoc : (s : Bytes) (d : ℕ) → length (s ++ d ∷ []) ≡ length s + 1
length-snoc s d = length-append s (d ∷ [])

-- A text of bytes that `ParseUint` accepts is one or more digits; the result is their value modulo 2 ^ 64,
-- and it is below 2 ^ 63.
pub parse_uint_sound :
    (s : Bytes) {r : ℕ}
    → All IsByte s
    → parse_uint s ≡ ok r
    → (s ≢ []) × All IsDigit s × (r ≡ value 0 s % 2 ^ 64) × (r < 2 ^ 63)
unfolding parse_uint
parse_uint_sound [] bs h = ground arith
parse_uint_sound (c ∷ s) {r} bs h =
    ground (arith, cons-ne-nil c s, scan_sound (c ∷ s) 0 0 r (length (c ∷ s)) bs)

-- One or more digits whose value is below 2 ^ 63 are accepted, with their value.
pub parse_uint_complete :
    (s : Bytes) → s ≢ [] → All IsDigit s → value 0 s < 2 ^ 63 → parse_uint s ≡ ok (value 0 s)
unfolding parse_uint
parse_uint_complete [] h ds fits = absurd (h refl)
parse_uint_complete (c ∷ s) h ds fits = ground (arith, scan_uint-digits (c ∷ s) 0 0 ds fits)

-- `ParseUint` reports an empty text as such, and every other refused text by the error on a
-- trailing char: the errors on the first char and on a too long int do not get through.
pub parse_uint_errors :
    (s : Bytes) {e : IntError}
    → parse_uint s ≡ err e
    → (s ≡ []) × (e ≡ empty_int) ⊎ (s ≢ []) × (e ≡ unexpected_trailing_char)
unfolding parse_uint
parse_uint_errors [] h = ground arith
parse_uint_errors (c ∷ s) h = inr (cons-ne-nil c s, scan_error (scan_uint 0 0 (c ∷ s)) refl h)
  where
    scan_error :
        (u : UintScan) {e : IntError}
        → scan_uint 0 0 (c ∷ s) ≡ u
        → whole (length (c ∷ s)) u ≡ err e
        → e ≡ unexpected_trailing_char
    scan_error (parsed v n) p q = ground arith
    scan_error (refused e n) p q = ground (arith, scan_uint-refused (c ∷ s) 0 0 n p)

-- The overflow test misses a product that wraps past 2 ^ 64 and comes out above the value before:
-- if `v` is the value of the digits `s`, a digit `d` with `2 ^ 64 + v <= 10 v + d < 2 ^ 64 + 2 ^ 63`
-- behind them is accepted, with a result that is 2 ^ 64 too small.
pub parse_uint_wraps :
    (s : Bytes) (d : ℕ)
    → s ≢ []
    → All IsDigit s
    → value 0 s < 2 ^ 63
    → IsDigit d
    → 2 ^ 64 + value 0 s ≤ value 0 (s ++ d ∷ [])
    → value 0 (s ++ d ∷ []) < 2 ^ 64 + 2 ^ 63
    → parse_uint (s ++ d ∷ []) ≡ ok (value 0 (s ++ d ∷ []) - 2 ^ 64)
unfolding parse_uint scan_uint
parse_uint_wraps [] d ne ds fits dd lo hi = absurd (ne refl)
parse_uint_wraps (c ∷ s) d ne ds fits dd lo hi =
    rw (scan_uint-append (c ∷ s) (d ∷ []) 0 0 ds fits)
      (ground (arith, value-append (c ∷ s) (d ∷ []) 0, length-snoc (c ∷ s) d))
