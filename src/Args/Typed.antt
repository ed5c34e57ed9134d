-- ===== src/Args/Typed.antt =====
-- `GetUint`, `SetUint`, `GetUintOrZero` and `GetBool` of args.go.
use justhttp.Base.{
  ℕ, ◌^◌, ◌<◌, ◌≡◌, refl, ◌≢◌, inl, inr, Bool, false, ◌||◌, Option, none, some, List, [], ◌∷◌, map,
  if◌then◌else◌, Bool-cases, Bytes, codes, equal, Result, ok, err,
}
use justhttp.Args.Slots.{Slots}
use justhttp.Args.Store.{set_arg, peek_arg}
use justhttp.Args.Store.Laws.{peek_arg-set_arg}
use justhttp.Bytesconv.Uint.{IntError, parse_uint, append_uint}
use justhttp.Bytesconv.Uint.Print.{append_uint_lem, parse_uint-append_uint}

pub data ArgError : Type 0 where
  no_arg_value : ArgError
  bad_int : IntError → ArgError

-- `len(value)` of a result that may be nil.
abbrev bytes_of : Option Bytes → Bytes
bytes_of none = []
bytes_of (some v) = v

-- `GetUint` on the value that `Peek` gives.
uint_of : Bytes → Result ArgError ℕ
uint_of [] = err no_arg_value
uint_of (c ∷ v) = elim (parse_uint (c ∷ v)) [ ok n ↦ ok n | err e ↦ err (bad_int e) ]

-- `GetUint`.
unfoldable pub get_uint : Slots → Bytes → Result ArgError ℕ
unfolding uint_of
get_uint h key = uint_of (bytes_of (peek_arg h.visible key))

-- `GetUintOrZero`.
unfoldable pub get_uint_or_zero : Slots → Bytes → ℕ
unfolding get_uint
get_uint_or_zero h key = elim (get_uint h key) [ ok n ↦ n | err e ↦ 0 ]

-- `SetUint` for `value >= 0`; `none` is the panic of `AppendUint`.
unfoldable pub set_uint : Slots → Bytes → ℕ → Option Slots
set_uint h key value = elim (append_uint [] value) [
  | none ↦ none
  | some text ↦ some (set_arg h key text false)
]

-- The texts that `GetBool` takes for true.
abbrev true_texts : List Bytes
true_texts =
    map codes ("1" ∷ "t" ∷ "T" ∷ "true" ∷ "TRUE" ∷ "True" ∷ "y" ∷ "yes" ∷ "Y" ∷ "YES" ∷ "Yes" ∷ [])

unfoldable pub is_one_of : Bytes → List Bytes → Bool
is_one_of v [] = false
is_one_of v (t ∷ ts) = equal v t || is_one_of v ts

-- `GetBool`.
unfoldable pub get_bool : Slots → Bytes → Bool
unfolding is_one_of
get_bool h key = is_one_of (bytes_of (peek_arg h.visible key)) true_texts

uint_of_digits : (text : Bytes) (n : ℕ) → text ≢ [] → parse_uint text ≡ ok n → uint_of text ≡ ok n
unfolding uint_of
uint_of_digits [] n ne e = absurd (ne refl)
uint_of_digits (c ∷ text) n ne e = rw (uint_of, e)

-- A number below 2 ^ 63 that `SetUint` sets under a key is read back by `GetUint` under it, and
-- every other key reads what it read before.
pub get_uint-set_uint :
    (h : Slots) (key k : Bytes) (n : ℕ)
    → n < 2 ^ 63
    → (h' : Slots) × (set_uint h key n ≡ some h')
      × (get_uint h' k ≡ (if equal key k then ok n else get_uint h k))
unfolding set_uint get_uint
get_uint-set_uint h key k n small =
    let (text, e, ds, v, ne, size) = append_uint_lem [] n small in
    (set_arg h key text false, rw (e, set_uint), get_uint_after)
  where
    get_uint_after :
        get_uint (set_arg h key (append_uint_lem [] n small).0 false) k
        ≡ (if equal key k then ok n else get_uint h k)
    get_uint_after =
        rw (peek_arg-set_arg h key (append_uint_lem [] n small).0 false k)
          (elim (Bool-cases (equal key k)) [
            | inl same ↦ rw same (
                uint_of_digits _ n (append_uint_lem [] n small).4
                  (parse_uint-append_uint n small (append_uint_lem [] n small).1))
            | inr other ↦ rw other
          ])
