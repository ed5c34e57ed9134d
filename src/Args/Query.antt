-- ===== src/Args/Query.antt =====
-- `Args.AppendBytes` of args.go.
pub mod RoundTrip
use justhttp.Base.{ℕ, List, [], ◌∷◌, ◌++◌, ltb, if◌then◌else◌, length, Bytes}
use justhttp.Args.Slots.{ArgsKv}
use justhttp.Bytesconv.Quote.{append_quoted_arg}

-- What a round of the loop appends for one argument, the '&' apart.
unfoldable pub append_kv : Bytes → ArgsKv → Bytes
append_kv dst kv =
    let keyed = append_quoted_arg dst kv.key in
    let assigned = keyed ++ b'=' ∷ [] in
    if kv.no_value
    then keyed
    else if ltb 0 (length kv.value)
    then append_quoted_arg assigned kv.value
    else assigned

unfoldable pub append_bytes : Bytes → List ArgsKv → Bytes
unfolding append_kv
append_bytes dst [] = dst
append_bytes dst (kv ∷ []) = append_kv dst kv
append_bytes dst (kv ∷ kv' ∷ kvs) = append_bytes (append_kv dst kv ++ b'&' ∷ []) (kv' ∷ kvs)
