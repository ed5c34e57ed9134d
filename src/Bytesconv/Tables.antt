-- ===== src/Bytesconv/Tables.antt =====
-- The tables of bytesconv_table.go, as bytesconv_table_gen.go computes them. A table is a function
-- of its index, and one of zeros and ones is a Boolean function.
use Prim.Native.Nat.{bit_or}
use justhttp.Base.Table.{all_below, all_below_sound}
use justhttp.Base.{
  ℕ, ◌+◌, ◌-◌, ◌*◌, ◌/◌, ◌%◌, ◌<◌, ◌≡◌, refl, Bool, true, not, ◌&&◌, ◌||◌, arith, ltb, ◌==◌,
  if◌then◌else◌, within, ==_iff,
}

-- `hex2intTable`: 16 for what is no hex digit.
unfoldable pub hex2int : ℕ → ℕ
hex2int i =
    if within b'0' b'9' i
    then i - b'0'
    else if within b'a' b'f' i
    then i - b'a' + 10
    else if within b'A' b'F' i
    then i - b'A' + 10
    else 16

unfoldable pub to_lower_table : ℕ → ℕ
to_lower_table c = if within b'A' b'Z' c then c + (b'a' - b'A') else c

unfoldable pub to_upper_table : ℕ → ℕ
to_upper_table c = if within b'a' b'z' c then c - (b'a' - b'A') else c

unfoldable pub quoted_arg_should_escape : ℕ → Bool
quoted_arg_should_escape c = not (
    within b'a' b'z' c
    || within b'A' b'Z' c
    || within b'0' b'9' c
    || (c == b'-' || c == b'_' || c == b'.' || c == b'~'))

unfoldable pub quoted_path_should_escape : ℕ → Bool
unfolding quoted_arg_should_escape
quoted_path_should_escape c =
    quoted_arg_should_escape c
    && not (
        c == b'$'
        || c == b'&'
        || c == b'+'
        || c == b','
        || c == b'/'
        || c == b':'
        || c == b';'
        || c == b'='
        || c == b'@')

-- The constants `upperhex` and `lowerhex`, at an index below 16.
unfoldable pub upperhex : ℕ → ℕ
upperhex n = if ltb n 10 then b'0' + n else b'A' + (n - 10)

unfoldable pub lowerhex : ℕ → ℕ
lowerhex n = if ltb n 10 then b'0' + n else b'a' + (n - 10)

-- `hi<<4 | lo` on bytes.
unfoldable pub join_hex : ℕ → ℕ → ℕ
join_hex hi lo = bit_or (hi * 16 % 256) lo

join_hex_table : all_below 256 (λ c. join_hex (c / 16) (c % 16) == c) ≡ true
unfolding all_below join_hex
join_hex_table = refl

pub join_hex_halves : (c : ℕ) → c < 256 → join_hex (c / 16) (c % 16) ≡ c
join_hex_halves c h =
    (==_iff (join_hex (c / 16) (c % 16)) c).0 (all_below_sound 256 _ c h join_hex_table)

pub hex2int-upperhex : (n : ℕ) → n < 16 → hex2int (upperhex n) ≡ n
unfolding hex2int upperhex
hex2int-upperhex n h = ground arith

pub hex2int-lowerhex : (n : ℕ) → n < 16 → hex2int (lowerhex n) ≡ n
unfolding hex2int lowerhex
hex2int-lowerhex n h = ground arith
