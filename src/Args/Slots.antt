-- ===== src/Args/Slots.antt =====
-- The slices of key-value slots, and their reuse: `argsKV`, `allocArg`, `releaseArg`, `Reset`.
use justhttp.Base.{Bool, false, List, [], ◌∷◌, ◌++◌, Bytes}

-- `argsKV`.
pub record ArgsKv : Type 0 where
  pub key : Bytes
  pub value : Bytes
  pub no_value : Bool

-- `visible` is `h[:len(h)]` and `spare` is `h[len(h):cap(h)]`.
pub record Slots : Type 0 where
  pub visible : List ArgsKv
  pub spare : List ArgsKv

-- `argsKV{value: []byte{}}`.
abbrev pub new_slot : ArgsKv
new_slot = record { key = []; value = []; no_value = false }

-- The slot that `allocArg` hands out, and the spare slots behind it. (`append` may leave more spare
-- slots; these are zero, like a new one.)
unfoldable pub alloc_arg : List ArgsKv → ArgsKv × List ArgsKv
alloc_arg [] = (new_slot, [])
alloc_arg (kv ∷ spare) = (kv, spare)

-- `h[:0]`.
unfoldable pub reset : Slots → Slots
reset h = record { visible = []; spare = h.visible ++ h.spare }
