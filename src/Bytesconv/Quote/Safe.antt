-- ===== src/Bytesconv/Quote/Safe.antt =====
-- Which bytes the encoder of query arguments writes.
use justhttp.Base.{
  ℕ, ◌/◌, ◌%◌, ◌≤◌, ◌<◌, ◌≡◌, ◌⊎◌, inl, inr, false, [], ◌∷◌, arith, ◌==◌, Bool-cases, All,
  All-append, Bytes, IsByte,
}
use justhttp.Bytesconv.Tables.{quoted_arg_should_escape, upperhex}
use justhttp.Bytesconv.Quote.{quoted_arg_byte, append_quoted_arg}
use justhttp.Bytesconv.Quote.RoundTrip.{encoded, append_quoted_arg-encoded}

-- RFC 3986's unreserved characters, and the two that the encoding itself uses.
abbrev pub IsArgSafe : ℕ → Type 0
IsArgSafe c =
    (b'a' ≤ c) × (c ≤ b'z')
    ⊎ (b'A' ≤ c) × (c ≤ b'Z')
    ⊎ (b'0' ≤ c) × (c ≤ b'9')
    ⊎ (c ≡ b'-')
    ⊎ (c ≡ b'_')
    ⊎ (c ≡ b'.')
    ⊎ (c ≡ b'~')
    ⊎ (c ≡ b'%')
    ⊎ (c ≡ b'+')

upperhex-IsArgSafe : (n : ℕ) → n < 16 → IsArgSafe (upperhex n)
unfolding upperhex
upperhex-IsArgSafe n h = ground arith

plain-IsArgSafe : (c : ℕ) → quoted_arg_should_escape c ≡ false → IsArgSafe c
unfolding quoted_arg_should_escape
plain-IsArgSafe c h = ground arith

quoted_arg_byte-IsArgSafe : (c : ℕ) → IsByte c → All IsArgSafe (quoted_arg_byte c)
unfolding quoted_arg_byte
quoted_arg_byte-IsArgSafe c h = elim (Bool-cases (c == b' ')) [
  | inl space ↦ rw space (omega arith)
  | inr other ↦ rw other (elim (Bool-cases (quoted_arg_should_escape c)) [
    | inl escape ↦ rw escape (
      omega arith,
      (upperhex-IsArgSafe (c / 16) (omega arith), (upperhex-IsArgSafe (c % 16) (omega arith), tt)),
    )
    | inr plain ↦ rw plain (plain-IsArgSafe c plain, tt)
  ])
]

encoded-IsArgSafe : (s : Bytes) → All IsByte s → All IsArgSafe (encoded quoted_arg_byte s)
encoded-IsArgSafe [] h = tt
encoded-IsArgSafe (c ∷ s) (hc, hs) =
    All-append IsArgSafe (quoted_arg_byte c) _ (quoted_arg_byte-IsArgSafe c hc)
      (encoded-IsArgSafe s hs)

-- What `AppendQuotedArg` writes of a text of bytes holds only unreserved characters, '%' and '+'.
pub append_quoted_arg-IsArgSafe :
    (s : Bytes) → All IsByte s → All IsArgSafe (append_quoted_arg [] s)
append_quoted_arg-IsArgSafe s h = rw append_quoted_arg-encoded (encoded-IsArgSafe s h)
