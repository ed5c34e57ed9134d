-- ===== src/Bytesconv/Ipv4.antt =====
-- `AppendIPv4` and `ParseIPv4` of bytesconv.go. An address is the list of its four bytes; one of
-- another form, which `To4` refuses, is left out.
pub mod RoundTrip
use justhttp.Base.{
  ℕ, zero, suc, ◌+◌, Option, none, some, List, [], ◌∷◌, ◌++◌, ltb, ◌==◌, if◌then◌else◌, length,
  take, drop, Bytes, Result, ok, err, ◌>>=◌, index_byte,
}
use justhttp.Bytesconv.Uint.{IntError, parse_uint, append_uint}
use justhttp.Uri.Path.{◌then_if_done◌}

pub data IpError : Type 0 where
  empty_ip_str no_dot too_large_part : IpError
  bad_part : IntError → IpError

unfoldable pub parse_part : Bytes → Result IpError ℕ
unfolding parse_uint
parse_part b = elim (parse_uint b) [
  | err e ↦ err (bad_part e)
  | ok v ↦ (if ltb 255 v then err too_large_part else ok v)
]

-- The loop of `ParseIPv4` with so many dots to come, and what stands behind it.
unfoldable pub parse_ip_parts : ℕ → Bytes → Result IpError (List ℕ)
unfolding parse_part
parse_ip_parts zero b = parse_part b >>= λ v. ok (v ∷ [])
parse_ip_parts (suc dots) b = elim (index_byte b b'.') [
  | none ↦ err no_dot
  | some n ↦
      parse_part (take n b) >>= λ v. parse_ip_parts dots (drop (n + 1) b) >>= λ vs. ok (v ∷ vs)
]

-- `ParseIPv4`.
unfoldable pub parse_ipv4 : Bytes → Result IpError (List ℕ)
unfolding parse_ip_parts
parse_ipv4 ip_str = if length ip_str == 0 then err empty_ip_str else parse_ip_parts 3 ip_str

-- The loop of `AppendIPv4`; `none` is the panic of `AppendUint`.
unfoldable pub append_ip_parts : Bytes → List ℕ → Option Bytes
unfolding append_uint
append_ip_parts dst [] = some dst
append_ip_parts dst (v ∷ vs) =
    append_uint (dst ++ b'.' ∷ []) v then_if_done λ b. append_ip_parts b vs

-- `AppendIPv4`.
unfoldable pub append_ipv4 : Bytes → List ℕ → Option Bytes
unfolding append_uint append_ip_parts
append_ipv4 dst [] = some dst
append_ipv4 dst (v ∷ vs) = append_uint dst v then_if_done λ b. append_ip_parts b vs
