-- ===== src/Base/Search.antt =====
-- `bytes.Index`, `bytes.LastIndex` and `bytes.LastIndexByte`; `none` is -1.
pub mod Found
use Prim.Native.Nat.{ℕ, suc}
use mathlib.Core.Bool.{Bool, true, false, ◌&&◌}
use mathlib.Core.List.{List, [], ◌∷◌}
use mathlib.Core.Option.{Option, none, some}
use justhttp.Base.Slices.{Bytes}
use justhttp.Base.Tests.{◌==◌, if◌then◌else◌}

unfoldable pub has_prefix : Bytes → Bytes → Bool
has_prefix [] s = true
has_prefix (p ∷ ps) [] = false
has_prefix (p ∷ ps) (c ∷ s) = p == c && has_prefix ps s

abbrev pub one_later : Option ℕ → Option ℕ
one_later none = none
one_later (some i) = some (suc i)

unfoldable pub index : Bytes → Bytes → Option ℕ
index pat [] = if has_prefix pat [] then some 0 else none
index pat (c ∷ s) =
    let later = one_later (index pat s) in if has_prefix pat (c ∷ s) then some 0 else later

unfoldable pub last_index : Bytes → Bytes → Option ℕ
last_index pat [] = if has_prefix pat [] then some 0 else none
last_index pat (c ∷ s) = elim (last_index pat s) [
  | none ↦ (if has_prefix pat (c ∷ s) then some 0 else none)
  | some i ↦ some (suc i)
]

unfoldable pub last_index_byte : Bytes → ℕ → Option ℕ
last_index_byte [] b = none
last_index_byte (c ∷ s) b = elim (last_index_byte s b) [
  | none ↦ (if c == b then some 0 else none)
  | some i ↦ some (suc i)
]
