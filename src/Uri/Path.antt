-- ===== src/Uri/Path.antt =====
-- `normalizePath` of uri.go, with `addLeadingSlash` of uri_unix.go. A loop that shifts bytes in
-- place is a function of the bytes it leaves; its first argument bounds the rounds, and `none` is a
-- bound that is too small.
pub mod Slashes
pub mod Steps
pub mod Loops
pub mod Normal
use justhttp.Base.{
  ℕ, zero, suc, ◌+◌, not, Option, none, some, [], ◌∷◌, ◌++◌, ◌==◌, if◌then◌else◌, length, take,
  drop, Bytes, codes,
}
use justhttp.Base.Search.{index, last_index, last_index_byte}
use justhttp.Bytesconv.Quote.{decode_arg_append_no_plus}

unfoldable pub add_leading_slash : Bytes → Bytes → Bytes
add_leading_slash dst [] = dst ++ b'/' ∷ []
add_leading_slash dst (c ∷ src) = if not (c == b'/') then dst ++ b'/' ∷ [] else dst

-- The first loop: `done` is what stands before `b`.
unfoldable pub remove_duplicate_slashes : ℕ → Bytes → Bytes → Option Bytes
remove_duplicate_slashes zero done b = none
remove_duplicate_slashes (suc rounds) done b = elim (index (codes "//") b) [
  | none ↦ some (done ++ b)
  | some n ↦ remove_duplicate_slashes rounds (done ++ take n b) (drop (n + 1) b)
]

-- The second loop.
unfoldable pub remove_dots : ℕ → Bytes → Option Bytes
remove_dots zero b = none
remove_dots (suc rounds) b = elim (index (codes "/./") b) [
  | none ↦ some b
  | some n ↦ remove_dots rounds (take n b ++ drop (n + 2) b)
]

-- The index of the '/' before `n`, or 0.
unfoldable pub parent : Bytes → ℕ
parent front = elim (last_index_byte front b'/') [ none ↦ 0 | some nn ↦ nn ]

-- The third loop.
unfoldable pub remove_dot_dots : ℕ → Bytes → Option Bytes
unfolding parent
remove_dot_dots zero b = none
remove_dot_dots (suc rounds) b = elim (index (codes "/../") b) [
  | none ↦ some b
  | some n ↦ remove_dot_dots rounds (take (parent (take n b)) b ++ drop (n + 3) b)
]

-- What is left where "/.." stands at the end, at the index `n`.
unfoldable pub cut_parent : Bytes → ℕ → Bytes
cut_parent b n = elim (last_index_byte (take n b) b'/') [
  | none ↦ codes "/"
  | some nn ↦ take (nn + 1) b
]

unfoldable pub remove_trailing : Bytes → Bytes
unfolding cut_parent
remove_trailing b = elim (last_index (codes "/..") b) [
  | none ↦ b
  | some n ↦ if n + 3 == length b then cut_parent b n else b
]

-- Some steps behind steps that may have run out of their bound.
infixl 5 ◌then_if_done◌
abbrev pub ◌then_if_done◌ : {A B : Type 0} → Option A → (A → Option B) → Option B
none then_if_done f = none
some b then_if_done f = f b

-- `normalizePath`: each loop has a round for each byte, and one more.
unfoldable pub normalize_path : Bytes → Option Bytes
unfolding remove_duplicate_slashes remove_dots remove_dot_dots remove_trailing add_leading_slash
normalize_path src =
    let dst = decode_arg_append_no_plus (add_leading_slash [] src) src in
    remove_duplicate_slashes (length dst + 1) [] dst
    then_if_done (λ b. remove_dots (length b + 1) b)
    then_if_done (λ b. remove_dot_dots (length b + 1) b)
    then_if_done (λ b. some (remove_trailing b))
