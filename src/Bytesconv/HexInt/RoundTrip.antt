-- ===== src/Bytesconv/HexInt/RoundTrip.antt =====
-- `readHexInt` reads back what `writeHexInt` writes.
use native.Mathlib.Nat.{pow-suc}
use justhttp.Base.{
  ℕ, zero, suc, ◌+◌, ◌*◌, ◌/◌, ◌%◌, ◌^◌, ◌≤◌, ◌<◌, ◌≡◌, refl, ◌∙◌, inl, inr, some, [], ◌∷◌, ◌++◌,
  arith, ◌==◌, Bool-cases, Bytes, ok,
}
use justhttp.Bytesconv.Tables.{hex2int, lowerhex, hex2int-lowerhex}
use justhttp.Bytesconv.HexInt.{
  ReadEnd, eof, failed, read_hex_digits, read_hex_int, fill_hex, write_hex_int,
}

-- What may follow a number: the end of the stream, or a byte that is no hex digit.
abbrev pub Ends : ReadEnd → Bytes → Type 0
Ends eof [] = Unit
Ends failed [] = ⊥
Ends end (c ∷ r) = hex2int c ≡ 16

-- Reading `out` with some digits before it, and reading what stood behind them.
abbrev Reads : ℕ → ℕ → Bytes → Bytes → Type 0
Reads i n buf out =
    (end : ReadEnd) (rest : Bytes)
    → read_hex_digits end 0 0 (out ++ rest) ≡ read_hex_digits end i n (buf ++ rest)

read_hex_digit :
    (end : ReadEnd) (i n d j m : ℕ) (r : Bytes)
    → d < 16
    → i < 15
    → j ≡ i + 1
    → m ≡ n * 16 + d
    → read_hex_digits end i n (lowerhex d ∷ r) ≡ read_hex_digits end j m r
unfolding read_hex_digits
read_hex_digit eof i n d j m r h lt ej em = rw (ej, em, hex2int-lowerhex d h) (ground arith)
read_hex_digit failed i n d j m r h lt ej em = rw (ej, em, hex2int-lowerhex d h) (ground arith)

-- A number below `16 ^ (i + 1)` is written in at most `i + 1` digits, `k` say, and reading these
-- digits leads to what stood behind them.
fill_hex_lem :
    (i n : ℕ) (buf : Bytes)
    → n < 16 * 16 ^ i
    → i < 15
    → (out : Bytes) × (k : ℕ) × (fill_hex (suc i) n buf ≡ some out)
      × (0 < k)
      × (k ≤ suc i)
      × Reads k n buf out
unfolding fill_hex
fill_hex_lem zero n buf h small = (
  lowerhex (n % 16) ∷ buf,
  1,
  ground arith,
  omega arith,
  omega arith,
  λ end rest.
      read_hex_digit end 0 0 (n % 16) 1 n (buf ++ rest) (omega arith) (omega arith) (omega arith)
        (omega arith),
)
fill_hex_lem (suc i) n buf h small = elim (Bool-cases (n / 16 == 0)) [
  | inl last ↦ (
    lowerhex (n % 16) ∷ buf,
    1,
    rw last,
    omega arith,
    omega arith,
    λ end rest.
        read_hex_digit end 0 0 (n % 16) 1 n (buf ++ rest) (omega arith) (omega arith) (omega arith)
          (ground arith),
  )
  | inr more ↦
      let (out, k, e, pos, le, reads) =
        fill_hex_lem i (n / 16) (lowerhex (n % 16) ∷ buf) (omega (arith, pow-suc 16 i))
          (omega arith) in
      (
        out,
        k + 1,
        rw more e,
        omega arith,
        omega arith,
        λ end rest.
            reads end rest
            ∙ read_hex_digit end k (n / 16) (n % 16) (k + 1) n (buf ++ rest) (omega arith)
                (omega arith) refl (omega arith),
      )
]

-- One more byte of room changes nothing.
fill_hex_room :
    (i n : ℕ) (buf : Bytes) {out : Bytes}
    → fill_hex i n buf ≡ some out
    → fill_hex (suc i) n buf ≡ some out
unfolding fill_hex
fill_hex_room zero n buf h = cc
fill_hex_room (suc i) n buf {out} h = elim (Bool-cases (n / 16 == 0)) [
  | inl last ↦ rw last (rw last at h)
  | inr more ↦ rw more (fill_hex_room i (n / 16) (lowerhex (n % 16) ∷ buf) (rw more at h))
]

read_hex_end :
    (end : ReadEnd) (i n : ℕ) (r : Bytes)
    → 0 < i
    → Ends end r
    → read_hex_digits end i n r ≡ ok (n, r)
unfolding read_hex_digits
read_hex_end eof i n [] h e = ground arith
read_hex_end failed i n [] h e = absurd e
read_hex_end eof i n (c ∷ r) h e = ground arith
read_hex_end failed i n (c ∷ r) h e = ground arith

-- A number below `16 ^ 15` is written without a panic, and read back from in front of any byte that
-- is no hex digit, and from the end of a stream.
pub read_hex_int-write_hex_int :
    (n : ℕ) (end : ReadEnd) (rest : Bytes)
    → n < 16 ^ 15
    → Ends end rest
    → (out : Bytes) × (write_hex_int n ≡ some out) × (read_hex_int end (out ++ rest) ≡ ok (n, rest))
unfolding write_hex_int read_hex_int
read_hex_int-write_hex_int n end rest h e =
    let (out, k, f, pos, le, reads) = fill_hex_lem 14 n [] (omega arith) (omega arith) in
    (out, fill_hex_room 15 n [] f, reads end rest ∙ read_hex_end end k n rest pos e)
