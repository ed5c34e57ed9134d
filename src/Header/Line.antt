-- ===== src/Header/Line.antt =====
-- `appendHeaderLine` of header.go, and lines of it one after another.
use justhttp.Base.{List, [], ◌∷◌, ◌++◌, ltb, if◌then◌else◌, length, Bytes, codes}
use justhttp.Args.Slots.{ArgsKv}

unfoldable pub append_header_line : Bytes → Bytes → Bytes → Bytes
append_header_line dst key value = (((dst ++ key) ++ codes ": ") ++ value) ++ b'\r' ∷ b'\n' ∷ []

-- A line that is written if its value is not empty.
unfoldable pub append_filled_line : Bytes → Bytes → Bytes → Bytes
unfolding append_header_line
append_filled_line dst key value =
    if ltb 0 (length value) then append_header_line dst key value else dst

-- The loop over `h.h`.
unfoldable pub append_lines : Bytes → List ArgsKv → Bytes
unfolding append_header_line
append_lines dst [] = dst
append_lines dst (kv ∷ kvs) = append_lines (append_header_line dst kv.key kv.value) kvs
