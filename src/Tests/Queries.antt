-- ===== src/Tests/Queries.antt =====
-- Query arguments: args.go.
use Prim.Native.String.{String}
use mathlib.Core.Option
use justhttp.Base.{
  ◌≡◌, refl, inl, inr, true, false, some, List, [], ◌∷◌, arith, All, codes, equal, index_byte,
}
use justhttp.Args.Slots.{ArgsKv, Slots}
use justhttp.Args.Scanner.{parse_bytes}
use justhttp.Args.Scanner.Cut.{query_args}
use justhttp.Args.Scanner.Spec.{parse_bytes-query_args}
use justhttp.Args.Query.{append_bytes}
use justhttp.Args.Query.RoundTrip.{IsWritable, parse_bytes-append_bytes}
use justhttp.Args.Store.{peek_arg}
use justhttp.Args.Typed.{get_bool}
use justhttp.Bytesconv.Quote.{decode_arg_append, decode_slow, append_quoted_arg, quoted_arg_byte}
use justhttp.Bytesconv.Tables.{hex2int, join_hex, upperhex}

abbrev arg : String → String → ArgsKv
arg k v = record { key = codes k; value = codes v; no_value = false }

abbrev bare : String → ArgsKv
bare k = record { key = codes k; value = []; no_value = true }

abbrev args : List ArgsKv
args = arg "a" "1 2" ∷ bare "b" ∷ arg "" "=&" ∷ arg "a" "" ∷ []

abbrev slots : Slots
slots = record { visible = args; spare = arg "old" "x" ∷ [] }

parse_bytes_run :
    Option.map (λ h. h.visible) (parse_bytes slots (codes "a=1+2&&b&=%3D%26&a=&")) ≡ some args
unfolding parse_bytes decode_arg_append index_byte decode_slow hex2int join_hex
parse_bytes_run = refl

append_bytes_run : append_bytes [] args ≡ codes "a=1+2&b&=%3D%26&a="
unfolding append_bytes append_quoted_arg quoted_arg_byte upperhex
append_bytes_run = refl

get_bool_run : get_bool slots (codes "a") ≡ false
unfolding get_bool peek_arg equal
get_bool_run = refl

parse_bytes-query_args_example :
    (h' : Slots) × (parse_bytes slots (codes "x=1&y") ≡ some h')
    × (h'.visible ≡ query_args (codes "x=1&y"))
parse_bytes-query_args_example = parse_bytes-query_args slots (codes "x=1&y")

args-IsWritable : All IsWritable args
args-IsWritable = (
  record { key_bytes = omega arith; value_bytes = omega arith; filled = inl (cc); flagged = cc },
  (
    record { key_bytes = omega arith; value_bytes = tt; filled = inl (cc); flagged = λ e. refl },
    (
      record { key_bytes = tt; value_bytes = omega arith; filled = inr (cc); flagged = cc },
      (
        record {
          key_bytes = omega arith;
          value_bytes = tt;
          filled = inl (cc);
          flagged = λ e. refl;
        },
        tt,
      ),
    ),
  ),
)

parse_bytes-append_bytes_example :
    (h' : Slots) × (parse_bytes slots (append_bytes [] args) ≡ some h') × (h'.visible ≡ args)
parse_bytes-append_bytes_example = parse_bytes-append_bytes slots args args-IsWritable
