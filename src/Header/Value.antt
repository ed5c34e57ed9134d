-- ===== src/Header/Value.antt =====
-- Header values, header.go: their separators, their spaces and their line ends.
pub mod Laws
use justhttp.Base.{
  ℕ, zero, suc, ◌+◌, Bool, true, false, ◌||◌, Option, none, some, [], ◌∷◌, ◌++◌, ltb, ◌==◌,
  if◌then◌else◌, length, take, drop, Bytes, index_byte,
}
use justhttp.Cookie.Scan.{trim_left, trim_right}
use justhttp.Cookie.Parse.{case_insensitive_compare}

abbrev pub is_line_end : ℕ → Bool
is_line_end c = c == b'\r' || c == b'\n'

-- The loop of `removeNewLines`.
unfoldable pub blank_new_lines : Bytes → Bytes
blank_new_lines [] = []
blank_new_lines (c ∷ raw) = (if is_line_end c then b' ' else c) ∷ blank_new_lines raw

-- `start`, by the indices of the first '\r' and of the first '\n'; `none` is to return at once.
unfoldable pub new_line_start : Option ℕ → Option ℕ → Option ℕ
new_line_start none none = none
new_line_start (some r) none = some r
new_line_start none (some n) = some 0
new_line_start (some r) (some n) = if ltb n r then some n else some r

unfoldable pub remove_new_lines : Bytes → Bytes
unfolding new_line_start blank_new_lines
remove_new_lines raw = elim (new_line_start (index_byte raw b'\r') (index_byte raw b'\n')) [
  | none ↦ raw
  | some start ↦ take start raw ++ blank_new_lines (drop start raw)
]

unfoldable pub strip_space : Bytes → Bytes
unfolding trim_left trim_right
strip_space b = trim_right (trim_left b)

-- `headerValueScanner.next`: the value and the rest.
unfoldable pub next_value : Bytes → Option (Bytes × Bytes)
unfolding strip_space
next_value [] = none
next_value (c ∷ b) = elim (index_byte (c ∷ b) b',') [
  | none ↦ some (strip_space (c ∷ b), [])
  | some n ↦ some (strip_space (take n (c ∷ b)), drop (n + 1) (c ∷ b))
]

-- The loop of `hasHeaderValue`; the first argument bounds its rounds, and `none` is a bound that is
-- too small.
unfoldable pub has_value_loop : ℕ → Bytes → Bytes → Option Bool
unfolding next_value case_insensitive_compare
has_value_loop zero s value = none
has_value_loop (suc rounds) s value = elim (next_value s) [
  | none ↦ some false
  | some (v, rest) ↦
      let later = has_value_loop rounds rest value in
      if case_insensitive_compare v value then some true else later
]

-- `hasHeaderValue`: a round takes at least a byte.
unfoldable pub has_header_value : Bytes → Bytes → Option Bool
unfolding has_value_loop
has_header_value s value = has_value_loop (length s + 1) s value

-- `b[:n]` without a '\r' at its end.
unfoldable pub cut_return : Bytes → Bytes
cut_return [] = []
cut_return (c ∷ []) = if c == b'\r' then [] else c ∷ []
cut_return (c ∷ d ∷ b) = c ∷ cut_return (d ∷ b)

-- `nextLine`: the line and the rest; `none` is `errNeedMore`.
unfoldable pub next_line : Bytes → Option (Bytes × Bytes)
unfolding cut_return
next_line b = elim (index_byte b b'\n') [
  | none ↦ none
  | some n ↦ some (cut_return (take n b), drop (n + 1) b)
]
