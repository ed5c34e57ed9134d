-- ===== src/Args/Store.antt =====
-- The operations on slices of args: `setArg`, `appendArg`, `delAllArgs`, `hasArg`, `peekArgStr`,
-- `copyArgs` and `PeekMulti` of args.go.
pub mod Laws
pub mod Delete
use justhttp.Base.{
  ℕ, Bool, true, false, Option, none, some, List, [], ◌∷◌, ◌++◌, if◌then◌else◌, Bytes, equal,
}
use justhttp.Args.Slots.{ArgsKv, Slots, alloc_arg, reset}

-- `kv.value[:0]` if there is no value.
abbrev pub stored : Bytes → Bool → Bytes
stored value no_value = if no_value then [] else value

-- `appendArg`.
unfoldable pub append_arg : Slots → Bytes → Bytes → Bool → Slots
unfolding alloc_arg
append_arg h key value no_value =
    let (slot, spare) = alloc_arg h.spare in
    let kv = record slot { key = key; value = stored value no_value; no_value = no_value } in
    record { visible = h.visible ++ kv ∷ []; spare = spare }

-- The loop of `setArg` over `h[i:]`; `none` if no key fits.
unfoldable pub set_first : List ArgsKv → Bytes → Bytes → Bool → Option (List ArgsKv)
set_first [] key value no_value = none
set_first (kv ∷ kvs) key value no_value =
    let later : Option (List ArgsKv) = elim (set_first kvs key value no_value) [
      | none ↦ none
      | some kvs' ↦ some (kv ∷ kvs')
    ] in
    if equal key kv.key
    then some (record kv { value = stored value no_value; no_value = no_value } ∷ kvs)
    else later

-- `setArg`.
unfoldable pub set_arg : Slots → Bytes → Bytes → Bool → Slots
unfolding set_first append_arg
set_arg h key value no_value = elim (set_first h.visible key value no_value) [
  | none ↦ append_arg h key value no_value
  | some kvs ↦ record h { visible = kvs }
]

-- The loop of `delAllArgs`: `before` is `args[:i]`, the list is `args[i:n]`. A deleted slot moves
-- behind the last one, to the front of the spare slots.
unfoldable pub del_loop : Bytes → List ArgsKv → List ArgsKv → List ArgsKv → Slots
del_loop key before [] spare = record { visible = before; spare = spare }
del_loop key before (kv ∷ kvs) spare =
    let deleted = del_loop key before kvs (kv ∷ spare) in
    let kept = del_loop key (before ++ kv ∷ []) kvs spare in
    if equal key kv.key then deleted else kept

-- `delAllArgs`.
unfoldable pub del_all_args : Slots → Bytes → Slots
unfolding del_loop
del_all_args h key = del_loop key [] h.visible h.spare

-- `hasArg`.
unfoldable pub has_arg : List ArgsKv → Bytes → Bool
has_arg [] key = false
has_arg (kv ∷ kvs) key = if equal key kv.key then true else has_arg kvs key

-- `peekArgStr` and `peekArgBytes`; `none` is nil.
unfoldable pub peek_arg : List ArgsKv → Bytes → Option Bytes
peek_arg [] k = none
peek_arg (kv ∷ kvs) k = if equal kv.key k then some kv.value else peek_arg kvs k

-- `PeekMulti`, whose callback appends the values to a list.
unfoldable pub peek_multi : List ArgsKv → Bytes → List Bytes → List Bytes
peek_multi [] key values = values
peek_multi (kv ∷ kvs) key values =
    peek_multi kvs key (if equal kv.key key then values ++ kv.value ∷ [] else values)

-- What `copyArgs` writes to a slot.
unfoldable pub copy_kv : ArgsKv → ArgsKv
copy_kv src = record src { value = stored src.value src.no_value }

-- The loop of `copyArgs` over `dst[:n]`; slots that are missing are made before it.
unfoldable pub copy_slots : List ArgsKv → List ArgsKv → Slots
copy_slots dst [] = record { visible = []; spare = dst }
copy_slots [] (src ∷ srcs) = record {
  visible = copy_kv src ∷ (copy_slots [] srcs).visible;
  spare = (copy_slots [] srcs).spare;
}
copy_slots (slot ∷ dst) (src ∷ srcs) = record {
  visible = copy_kv src ∷ (copy_slots dst srcs).visible;
  spare = (copy_slots dst srcs).spare;
}

-- `Args.CopyTo`: the slots of `dst` after its reset, and the visible ones of the source.
unfoldable pub copy_to : List ArgsKv → Slots → Slots
unfolding copy_slots copy_kv reset
copy_to srcs dst = copy_slots (reset dst).spare srcs
