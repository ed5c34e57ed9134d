-- ===== src/Bytesconv/Uint/Print.antt =====
-- What `AppendUint` writes.
use mathlib.Core.List.{cons-ne-nil}
use native.Mathlib.Nat.{pow-suc}
use justhttp.Base.{
  ℕ, zero, suc, ◌+◌, ◌-◌, ◌*◌, ◌/◌, ◌%◌, ◌^◌, ◌≤◌, ◌<◌, ◌≡◌, ap, ◌≢◌, inl, inr, some, [], ◌∷◌, ◌++◌,
  arith, leb, Bool-cases, length, All, Bytes, ok,
}
use justhttp.Bytesconv.Uint.{fill, append_uint, parse_uint}
use justhttp.Bytesconv.Uint.Parse.{IsDigit, value, parse_uint_complete}

-- The digits written, what they spell in front of what stood there, and how many there are.
record Filled (i n : ℕ) (buf out : Bytes) : Type 0 where
  digits : All IsDigit buf → All IsDigit out
  spells : value 0 out ≡ value n buf
  not_empty : out ≢ []
  size : length out ≤ i + length buf

-- The last digit of `n`, as a character.
abbrev last_digit : ℕ → ℕ
last_digit n = (b'0' + (n - n / 10 * 10) % 256) % 256

fill-Filled : (i n : ℕ) (buf : Bytes) {out : Bytes} → fill i n buf ≡ some out → Filled i n buf out
unfolding fill
fill-Filled zero n buf h = cc
fill-Filled (suc i) n buf {out} h = elim (Bool-cases (leb 10 n)) [
  | inl more ↦
      let f : Filled i (n / 10) (last_digit n ∷ buf) out =
        fill-Filled i (n / 10) (last_digit n ∷ buf) (rw more at h) in
      record {
        digits = λ ds. f.digits (ground arith, ds);
        spells = ground (arith, f.spells);
        not_empty = f.not_empty;
        size = omega (arith, f.size);
      }
  | inr last ↦
      let e : (b'0' + n % 256) % 256 ∷ buf ≡ out = ground arith in
      rw (← e) (record {
        digits = λ ds. (ground arith, ds);
        spells = ground arith;
        not_empty = cons-ne-nil _ _;
        size = omega arith;
      })
]

-- Room for `i` digits is enough for a number below `10 ^ i`.
fill_total :
    (i n : ℕ) (buf : Bytes) → n < 10 * 10 ^ i → (out : Bytes) × (fill (suc i) n buf ≡ some out)
unfolding fill
fill_total zero n buf h = ((b'0' + n % 256) % 256 ∷ buf, ground arith)
fill_total (suc i) n buf h = elim (Bool-cases (leb 10 n)) [
  | inl more ↦ rw more (fill_total i (n / 10) (last_digit n ∷ buf) (omega (arith, pow-suc 10 i)))
  | inr last ↦ ((b'0' + n % 256) % 256 ∷ buf, rw last)
]

-- `AppendUint` panics on no int that is not negative: its buffer has room for each. It appends digits to `dst`, at least
-- one and at most 20, which spell the number.
pub append_uint_lem :
    (dst : Bytes) (n : ℕ)
    → n < 2 ^ 63
    → (out : Bytes) × (append_uint dst n ≡ some (dst ++ out))
      × All IsDigit out
      × (value 0 out ≡ n)
      × (out ≢ [])
      × (length out ≤ 20)
unfolding append_uint
append_uint_lem dst n h =
    let (out, e) = fill_total 19 n [] (omega arith) in
    let f : Filled 20 n [] out = fill-Filled 20 n [] e in
    (out, rw (e, append_uint), f.digits tt, f.spells, f.not_empty, omega (arith, f.size))

-- What `AppendUint` writes of an int that is not negative, `ParseUint` reads back.
pub parse_uint-append_uint :
    (n : ℕ) {out : Bytes} → n < 2 ^ 63 → append_uint [] n ≡ some out → parse_uint out ≡ ok n
parse_uint-append_uint n {out} h e =
    let (out', e', ds, v, ne, size) = append_uint_lem [] n h in
    let same : out' ≡ out = cc in
    rw (← same) (rw (parse_uint_complete out' ne ds (omega arith)) (ap ok v))
