-- ===== src/Bytesconv/Quote/RoundTrip.antt =====
-- The decoders undo the encoders.
use justhttp.Base.{
  ℕ, ◌/◌, ◌%◌, ◌≡◌, refl, sym, ◌∙◌, ◌≢◌, inl, inr, ◌||◌, [], ◌∷◌, ◌++◌, append-nil, append_assoc,
  arith, ◌==◌, if◌then◌else◌, Bool-cases, All, Bytes, IsByte, equal, equal_iff,
}
use justhttp.Bytesconv.Tables.{hex2int, hex2int-upperhex, upperhex, join_hex, join_hex_halves}
use justhttp.Bytesconv.Quote.Fast.{decode_arg_append_fast, decode_arg_append_no_plus_fast}
use justhttp.Bytesconv.Quote.{
  quoted_arg_byte, append_quoted_arg, quoted_path_byte, quote_path, append_quoted_path, decode_slow,
  plus_to_space, unchanged, decode_arg_append, decode_arg_append_no_plus,
}

-- What the encoders write behind `dst`.
abbrev pub encoded : (ℕ → Bytes) → Bytes → Bytes
encoded byte [] = []
encoded byte (c ∷ s) = byte c ++ encoded byte s

pub append_quoted_arg-encoded :
    (s dst : Bytes) → append_quoted_arg dst s ≡ dst ++ encoded quoted_arg_byte s
unfolding append_quoted_arg
append_quoted_arg-encoded [] dst = sym (append-nil dst)
append_quoted_arg-encoded (c ∷ s) dst = simp (append_quoted_arg-encoded s, append_assoc)

quote_path-encoded : (s dst : Bytes) → quote_path dst s ≡ dst ++ encoded quoted_path_byte s
unfolding quote_path
quote_path-encoded [] dst = sym (append-nil dst)
quote_path-encoded (c ∷ s) dst = simp (quote_path-encoded s, append_assoc)

module _ (plain : ℕ → ℕ) where
  decode_slow_percent :
      (h1 h2 : ℕ) (dst rest : Bytes)
      → decode_slow plain dst (b'%' ∷ h1 ∷ h2 ∷ rest) ≡ (
          if hex2int h1 == 16 || hex2int h2 == 16
          then decode_slow plain (dst ++ b'%' ∷ []) (h1 ∷ h2 ∷ rest)
          else decode_slow plain (dst ++ join_hex (hex2int h1) (hex2int h2) ∷ []) rest)
  unfolding decode_slow
  decode_slow_percent h1 h2 dst rest = refl

  decode_slow_hex :
      (c : ℕ) (dst rest : Bytes)
      → IsByte c
      → decode_slow plain dst (b'%' ∷ upperhex (c / 16) ∷ upperhex (c % 16) ∷ rest)
        ≡ decode_slow plain (dst ++ c ∷ []) rest
  decode_slow_hex c dst rest h =
      rw
        (
          decode_slow_percent,
          hex2int-upperhex (c / 16) (omega arith),
          hex2int-upperhex (c % 16) (omega arith),
        )
        (ground (arith, join_hex_halves c h))

  decode_slow_plain :
      (c : ℕ) (dst rest : Bytes)
      → c ≢ b'%'
      → decode_slow plain dst (c ∷ rest) ≡ decode_slow plain (dst ++ plain c ∷ []) rest
  unfolding decode_slow
  decode_slow_plain c dst [] h = ground arith
  decode_slow_plain c dst (a ∷ []) h = ground arith
  decode_slow_plain c dst (a ∷ b ∷ rest) h = ground arith

decode_slow-quoted_arg_byte :
    (c : ℕ) (dst rest : Bytes)
    → IsByte c
    → decode_slow plus_to_space dst (quoted_arg_byte c ++ rest)
      ≡ decode_slow plus_to_space (dst ++ c ∷ []) rest
unfolding quoted_arg_byte
decode_slow-quoted_arg_byte c dst rest h = ground (
  arith,
  decode_slow_hex plus_to_space c dst rest h,
  decode_slow_plain plus_to_space b'+' dst rest,
  decode_slow_plain plus_to_space c dst rest,
)

decode_slow-quoted_path_byte :
    (c : ℕ) (dst rest : Bytes)
    → IsByte c
    → decode_slow unchanged dst (quoted_path_byte c ++ rest)
      ≡ decode_slow unchanged (dst ++ c ∷ []) rest
unfolding quoted_path_byte
decode_slow-quoted_path_byte c dst rest h =
    ground (arith, decode_slow_hex unchanged c dst rest h, decode_slow_plain unchanged c dst rest)

decode_slow-encoded_arg :
    (s dst : Bytes)
    → All IsByte s
    → decode_slow plus_to_space dst (encoded quoted_arg_byte s) ≡ dst ++ s
decode_slow-encoded_arg [] dst h = unfold decode_slow in sym (append-nil dst)
decode_slow-encoded_arg (c ∷ s) dst (hc, hs) =
    decode_slow-quoted_arg_byte c dst _ hc
    ∙ decode_slow-encoded_arg s (dst ++ c ∷ []) hs
    ∙ append_assoc dst (c ∷ []) s

decode_slow-encoded_path :
    (s dst : Bytes)
    → All IsByte s
    → decode_slow unchanged dst (encoded quoted_path_byte s) ≡ dst ++ s
decode_slow-encoded_path [] dst h = unfold decode_slow in sym (append-nil dst)
decode_slow-encoded_path (c ∷ s) dst (hc, hs) =
    decode_slow-quoted_path_byte c dst _ hc
    ∙ decode_slow-encoded_path s (dst ++ c ∷ []) hs
    ∙ append_assoc dst (c ∷ []) s

-- `decodeArgAppend` of what `AppendQuotedArg` writes of a text of bytes appends this text to `dst`.
pub decode_arg_append-append_quoted_arg :
    (s dst : Bytes) → All IsByte s → decode_arg_append dst (append_quoted_arg [] s) ≡ dst ++ s
decode_arg_append-append_quoted_arg s dst h =
    rw (decode_arg_append_fast, append_quoted_arg-encoded) (decode_slow-encoded_arg s dst h)

-- Of what `appendQuotedPath` writes of a text of bytes, `decodeArgAppendNoPlus` appends this text to
-- `dst`, also of the path "*", which is written as it is.
pub decode_arg_append_no_plus-append_quoted_path :
    (s dst : Bytes)
    → All IsByte s
    → decode_arg_append_no_plus dst (append_quoted_path [] s) ≡ dst ++ s
unfolding append_quoted_path
decode_arg_append_no_plus-append_quoted_path s dst h = elim (Bool-cases (equal s (b'*' ∷ []))) [
  | inl star ↦
      rw (star, decode_arg_append_no_plus_fast, (equal_iff s (b'*' ∷ [])).0 star)
        (unfold decode_slow in refl)
  | inr other ↦
      rw (other, decode_arg_append_no_plus_fast, quote_path-encoded)
        (decode_slow-encoded_path s dst h)
]
