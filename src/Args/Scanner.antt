-- ===== src/Args/Scanner.antt =====
-- `argsScanner.next` and `Args.ParseBytes` of args.go.
pub mod Cut
pub mod Spec
use justhttp.Base.{
  ℕ, zero, suc, ◌+◌, Bool, true, false, ◌||◌, Option, none, some, List, [], ◌∷◌, ◌++◌, ltb, ◌==◌,
  if◌then◌else◌, length, Bytes,
}
use justhttp.Args.Slots.{ArgsKv, Slots, alloc_arg, reset}
use justhttp.Bytesconv.Quote.{decode_arg_append}

-- What `next` leaves in the slot at '&' and at the end; `seen` is `s.b[k:i]`.
unfoldable pub finish_arg : Bool → Bytes → ArgsKv → ArgsKv
finish_arg true seen kv = record { key = decode_arg_append [] seen; value = []; no_value = true }
finish_arg false seen kv = record kv { value = decode_arg_append [] seen }

-- The loop of `next` from index `i`, over `s.b[i:]`, with the new `s.b`.
unfoldable pub next_loop : Bool → Bytes → ArgsKv → Bytes → ArgsKv × Bytes
unfolding finish_arg
next_loop is_key seen kv [] = (finish_arg is_key seen kv, [])
next_loop is_key seen kv (c ∷ b) =
    let value_next = next_loop false [] (record kv { key = decode_arg_append [] seen }) b in
    let same_next = next_loop is_key (seen ++ c ∷ []) kv b in
    if c == b'='
    then if is_key then value_next else same_next
    else if c == b'&'
    then (finish_arg is_key seen kv, b)
    else same_next

unfoldable pub next : Bytes → ArgsKv → Option (ArgsKv × Bytes)
unfolding next_loop
next [] kv = none
next (c ∷ b) kv = some (next_loop true [] (record kv { no_value = false }) (c ∷ b))

-- `len(kv.key) > 0 || len(kv.value) > 0`.
abbrev pub is_filled : ArgsKv → Bool
is_filled kv = ltb 0 (length kv.key) || ltb 0 (length kv.value)

-- The loop of `ParseBytes` with `releaseArg` behind it. `args` are the slots before the current one,
-- `kv`; the first argument bounds the rounds, and `none` is a bound that is too small.
pub parse_loop : ℕ → List ArgsKv → ArgsKv → List ArgsKv → Bytes → Option Slots
parse_loop zero args kv spare b = none
parse_loop (suc rounds) args kv spare b = elim (next b kv) [
  | none ↦ some (record { visible = args; spare = kv ∷ spare })
  | some (kv', b') ↦
      let more = parse_loop rounds (args ++ kv' ∷ []) (alloc_arg spare).0 (alloc_arg spare).1 b' in
      let again = parse_loop rounds args kv' spare b' in if is_filled kv' then more else again
]

-- `Args.ParseBytes`, on the slots that the object has: a round takes at least a byte.
unfoldable pub parse_bytes : Slots → Bytes → Option Slots
unfolding parse_loop next alloc_arg reset
parse_bytes h b =
    let empty = reset h in
    parse_loop (length b + 1) [] (alloc_arg empty.spare).0 (alloc_arg empty.spare).1 b
