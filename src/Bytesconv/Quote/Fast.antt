-- ===== src/Bytesconv/Quote/Fast.antt =====
-- The fast paths of the decoders agree with the slow ones.
use justhttp.Base.{
  ℕ, ◌≡◌, refl, sym, inl, inr, [], ◌∷◌, ◌++◌, append-nil, append_assoc, arith, Option-cases, All,
  Bytes, Lacks, index_byte, index_byte-none,
}
use justhttp.Bytesconv.Quote.{
  decode_slow, plus_to_space, unchanged, decode_arg_append, decode_arg_append_no_plus,
}

module _ (plain : ℕ → ℕ) where
  -- A text without '%', of bytes that stand for themselves, is copied.
  decode_slow_copies :
      (s dst : Bytes) → Lacks b'%' s → All (λ c. plain c ≡ c) s → decode_slow plain dst s ≡ dst ++ s
  unfolding decode_slow
  decode_slow_copies [] dst h p = sym (append-nil dst)
  decode_slow_copies (c ∷ []) dst h p = ground arith
  decode_slow_copies (c ∷ a ∷ []) dst h p = ground (
    arith,
    decode_slow_copies (a ∷ []) (dst ++ c ∷ []) h.1 p.1,
    append_assoc dst (c ∷ []) (a ∷ []),
  )
  decode_slow_copies (c ∷ a ∷ b ∷ s) dst h p = ground (
    arith,
    decode_slow_copies (a ∷ b ∷ s) (dst ++ c ∷ []) h.1 p.1,
    append_assoc dst (c ∷ []) (a ∷ b ∷ s),
  )

Lacks-plain : (s : Bytes) → Lacks b'+' s → All (λ c. plus_to_space c ≡ c) s
Lacks-plain [] h = tt
Lacks-plain (c ∷ s) h = (ground arith, Lacks-plain s h.1)

All-unchanged : (s : Bytes) → All (λ c. unchanged c ≡ c) s
All-unchanged [] = tt
All-unchanged (c ∷ s) = (refl, All-unchanged s)

-- The test of `decodeArgAppend` for a '%' or a '+' changes nothing but the cost.
pub decode_arg_append_fast :
    (dst s : Bytes) → decode_arg_append dst s ≡ decode_slow plus_to_space dst s
unfolding decode_arg_append
decode_arg_append_fast dst s = elim (Option-cases (index_byte s b'%')) [
  | inl no_percent ↦ elim (Option-cases (index_byte s b'+')) [
    | inl no_plus ↦
        rw (no_percent, no_plus)
          (sym (
            decode_slow_copies plus_to_space s dst (index_byte-none s _ no_percent)
              (Lacks-plain s (index_byte-none s _ no_plus))))
    | inr (i, e) ↦ rw (no_percent, e)
  ]
  | inr (i, e) ↦ rw e
]

-- The test of `decodeArgAppendNoPlus` for a '%' changes nothing but the cost.
pub decode_arg_append_no_plus_fast :
    (dst s : Bytes) → decode_arg_append_no_plus dst s ≡ decode_slow unchanged dst s
unfolding decode_arg_append_no_plus
decode_arg_append_no_plus_fast dst s = elim (Option-cases (index_byte s b'%')) [
  | inl no_percent ↦
      rw no_percent (
        sym (decode_slow_copies unchanged s dst (index_byte-none s _ no_percent) (All-unchanged s)))
  | inr (i, e) ↦ rw e
]
