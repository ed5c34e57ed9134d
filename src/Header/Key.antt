-- ===== src/Header/Key.antt =====
-- The normal form of header names, header.go.
pub mod Laws
use justhttp.Base.{Bool, true, false, [], ◌∷◌, ◌++◌, ◌==◌, if◌then◌else◌, Bytes}
use justhttp.Bytesconv.Tables.{to_lower_table, to_upper_table}

-- The bytes from an index on; the flag tells whether the first of them is capitalised, as at the
-- start and behind a '-'.
unfoldable pub normalize_from : Bool → Bytes → Bytes
unfolding to_lower_table to_upper_table
normalize_from capital [] = []
normalize_from true (c ∷ b) = to_upper_table c ∷ normalize_from false b
normalize_from false (c ∷ b) =
    (if c == b'-' then c else to_lower_table c) ∷ normalize_from (c == b'-') b

unfoldable pub normalize_header_key : Bytes → Bool → Bytes
unfolding normalize_from
normalize_header_key b disable_normalizing =
    if disable_normalizing then b else normalize_from true b

unfoldable pub append_normalized_header_key : Bytes → Bytes → Bytes
unfolding normalize_header_key
append_normalized_header_key dst key = dst ++ normalize_header_key key false
