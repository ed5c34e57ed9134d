-- ===== src/Bytesconv/Quote.antt =====
-- URL encoding: `AppendQuotedArg` and `appendQuotedPath` of bytesconv.go, `decodeArgAppend` and
-- `decodeArgAppendNoPlus` of args.go.
pub mod Fast
pub mod RoundTrip
pub mod Safe
use justhttp.Base.{
  ℕ, ◌/◌, ◌%◌, ◌&&◌, ◌||◌, [], ◌∷◌, ◌++◌, ◌==◌, if◌then◌else◌, Bytes, equal, index_byte, is_none,
}
use justhttp.Bytesconv.Tables.{
  hex2int, quoted_arg_should_escape, quoted_path_should_escape, upperhex, join_hex,
}

-- What one round of `AppendQuotedArg` appends.
unfoldable pub quoted_arg_byte : ℕ → Bytes
unfolding quoted_arg_should_escape
quoted_arg_byte c =
    if c == b' '
    then b'+' ∷ []
    else if quoted_arg_should_escape c
    then b'%' ∷ upperhex (c / 16) ∷ upperhex (c % 16) ∷ []
    else c ∷ []

unfoldable pub append_quoted_arg : Bytes → Bytes → Bytes
append_quoted_arg dst [] = dst
append_quoted_arg dst (c ∷ src) = append_quoted_arg (dst ++ quoted_arg_byte c) src

unfoldable pub quoted_path_byte : ℕ → Bytes
unfolding quoted_path_should_escape
quoted_path_byte c =
    if quoted_path_should_escape c
    then b'%' ∷ upperhex (c / 16) ∷ upperhex (c % 16) ∷ []
    else c ∷ []

-- The loop of `appendQuotedPath`.
unfoldable pub quote_path : Bytes → Bytes → Bytes
quote_path dst [] = dst
quote_path dst (c ∷ src) = quote_path (dst ++ quoted_path_byte c) src

unfoldable pub append_quoted_path : Bytes → Bytes → Bytes
unfolding quote_path equal
append_quoted_path dst src = if equal src (b'*' ∷ []) then dst ++ b'*' ∷ [] else quote_path dst src

-- The slow path of the two decoders; `plain` is what a byte other than '%' stands for.
module _ (plain : ℕ → ℕ) where
  unfoldable pub decode_slow : Bytes → Bytes → Bytes
  decode_slow dst [] = dst
  decode_slow dst (c ∷ []) = if c == b'%' then dst ++ c ∷ [] else dst ++ plain c ∷ []
  decode_slow dst (c ∷ h1 ∷ []) =
      let next = decode_slow (dst ++ plain c ∷ []) (h1 ∷ []) in
      if c == b'%' then dst ++ c ∷ h1 ∷ [] else next
  decode_slow dst (c ∷ h1 ∷ h2 ∷ src) =
      let x2 = hex2int h2 in
      let x1 = hex2int h1 in
      let kept = decode_slow (dst ++ b'%' ∷ []) (h1 ∷ h2 ∷ src) in
      let decoded = decode_slow (dst ++ join_hex x1 x2 ∷ []) src in
      let next = decode_slow (dst ++ plain c ∷ []) (h1 ∷ h2 ∷ src) in
      if c == b'%' then if x1 == 16 || x2 == 16 then kept else decoded else next

abbrev pub plus_to_space : ℕ → ℕ
plus_to_space c = if c == b'+' then b' ' else c

abbrev pub unchanged : ℕ → ℕ
unchanged c = c

unfoldable pub decode_arg_append : Bytes → Bytes → Bytes
decode_arg_append dst src =
    if is_none (index_byte src b'%') && is_none (index_byte src b'+')
    then dst ++ src
    else decode_slow plus_to_space dst src

unfoldable pub decode_arg_append_no_plus : Bytes → Bytes → Bytes
decode_arg_append_no_plus dst src =
    if is_none (index_byte src b'%') then dst ++ src else decode_slow unchanged dst src
