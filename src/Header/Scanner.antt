-- ===== src/Header/Scanner.antt =====
-- `headerScanner` of header.go. The scanner writes into its buffer: the names in their normal form,
-- and the bytes behind a value of several lines moved to the front. `b` is what is left of the
-- buffer after that.
pub mod Lines
use justhttp.Base.{
  ℕ, zero, suc, ◌+◌, ◌-◌, Bool, true, false, ◌&&◌, ◌||◌, Option, none, some, [], ◌∷◌, ltb, leb,
  ◌==◌, if◌then◌else◌, length, take, drop, Bytes, Result, ok, err, index_byte,
}
use justhttp.Header.Key.{normalize_header_key}
use justhttp.Header.Value.{is_line_end}

pub data ScanError : Type 0 where
  need_more invalid_name : ScanError

-- An index that is negative is `none`.
pub record HeaderScanner : Type 0 where
  pub b : Bytes
  pub key : Bytes
  pub value : Bytes
  pub h_len : ℕ
  pub disable_normalizing : Bool
  pub next_colon : Option ℕ
  pub next_new_line : Option ℕ

-- What a call of `next` gives: a header, the end of the headers, or an error.
pub data Scanned : Type 0 where
  header : HeaderScanner → Scanned
  finished : HeaderScanner → Scanned
  failed : ScanError → Scanned

abbrev pub new_scanner : Bytes → Bool → HeaderScanner
new_scanner b disable_normalizing = record {
  b = b;
  key = [];
  value = [];
  h_len = 0;
  disable_normalizing = disable_normalizing;
  next_colon = none;
  next_new_line = none;
}

-- The bytes of the line end in front, if there is one.
unfoldable pub line_end : Bytes → ℕ
line_end [] = 0
line_end (c ∷ []) = if c == b'\n' then 1 else 0
line_end (c ∷ d ∷ b) = if c == b'\r' && d == b'\n' then 2 else if c == b'\n' then 1 else 0

-- The index of the ':' behind the name, by those of the first ':' and the first '\n'.
unfoldable pub name_end : Option ℕ → Option ℕ → Result ScanError ℕ
name_end n none = err need_more
name_end none (some x) = err need_more
name_end (some n) (some x) = if ltb x n then err invalid_name else ok n

unfoldable pub find_colon : HeaderScanner → Result ScanError ℕ
unfolding name_end
find_colon s = elim s.next_colon [
  | some n ↦ ok n
  | none ↦ name_end (index_byte s.b b':') (index_byte s.b b'\n')
]

-- How many spaces stand in front.
unfoldable pub spaces : Bytes → ℕ
spaces [] = 0
spaces (c ∷ b) = let more = suc (spaces b) in if c == b' ' then more else 0

-- `s.nextNewLine--`, as often as there are spaces.
unfoldable pub earlier : Option ℕ → ℕ → Option ℕ
earlier none k = none
earlier (some n) k = if ltb n k then none else some (n - k)

unfoldable pub find_new_line : Option ℕ → Bytes → Option ℕ
find_new_line none b = index_byte b b'\n'
find_new_line (some n) b = some n

-- What the loop over the lines of a value leaves: `n`, `nextColon`, `nextNewLine` and
-- `isMultiLineValue`.
pub record Extent : Type 0 where
  pub n : ℕ
  pub colon : Option ℕ
  pub new_line : Option ℕ
  pub multi_line : Bool

abbrev pub starts_blank : Bytes → Bool
starts_blank [] = false
starts_blank (c ∷ b) = c == b' ' || c == b'\t'

abbrev is_return : Bytes → Bool
is_return [] = false
is_return (c ∷ b) = c == b'\r'

-- Whether the line `next`, whose '\n' stands at `d`, goes on with the value, and what `nextColon`
-- becomes if it does not. `none` is a line that ends the value.
unfoldable pub next_line_colon : Bytes → Option ℕ → Option (Option ℕ)
next_line_colon next none = none
next_line_colon next (some zero) = none
next_line_colon next (some (suc d)) =
    if suc d == 1 && is_return next then none else some (index_byte (take (suc d) next) b':')

-- The loop; the first argument bounds its rounds, and `none` is a bound that is too small.
unfoldable pub extend_value : ℕ → Bytes → Extent → Option Extent
unfolding next_line_colon
extend_value zero b e = none
extend_value (suc rounds) b e =
    let next = drop (e.n + 1) b in
    let d = index_byte next b'\n' in
    let width : ℕ = elim d [ none ↦ 0 | some d ↦ d ] in
    let more = extend_value rounds b (record e { n = e.n + width + 1; multi_line = true }) in
    if starts_blank next
    then (elim (next_line_colon next d) [
      | none ↦ some e
      | some none ↦ more
      | some (some c) ↦ some (record e { colon = some c; new_line = some (width - c - 1) })
    ])
    else some e

-- `s.value[:n]` without a '\r' and without spaces at its end.
unfoldable pub trim_value : Bytes → Bytes
unfolding justhttp.Header.Value.cut_return justhttp.Cookie.Scan.trim_right
trim_value v = justhttp.Cookie.Scan.trim_right (justhttp.Header.Value.cut_return v)

-- The loop of `normalizeHeaderValue`: what it writes.
unfoldable pub join_lines : Bool → Bytes → Bytes
join_lines line_start [] = []
join_lines line_start (c ∷ ov) =
    let tab = line_start && c == b'\t' in
    let dropped = join_lines (line_start || c == b'\n') ov in
    let kept = join_lines tab ov in
    if is_line_end c then dropped else (if tab then b' ' else c) ∷ kept

-- `skip`, which looks for a line end behind the value.
unfoldable pub line_skip : Bytes → ℕ
line_skip [] = 0
line_skip (c ∷ []) = if is_line_end c then 1 else 0
line_skip (c ∷ d ∷ b) = if c == b'\r' && d == b'\n' then 2 else if is_line_end c then 1 else 0

-- `normalizeHeaderValue`: the value, the buffer behind it and the length.
unfoldable pub normalize_header_value : Bytes → Bytes → ℕ → Bytes × Bytes × ℕ
unfolding join_lines line_skip
normalize_header_value [] ob header_length = ([], [], 0)
normalize_header_value (c ∷ ov) ob header_length =
    let nv = join_lines false (c ∷ ov) in
    let behind = drop (length (c ∷ ov)) ob in
    (nv, drop (line_skip behind) behind, header_length - (length (c ∷ ov) - length nv))

-- The part of `next` behind the value's extent; `old` is `s.b`.
unfoldable pub finish_header : HeaderScanner → Bytes → Bytes → Extent → Scanned
unfolding trim_value normalize_header_value
finish_header s key old e =
    let value = trim_value (take e.n old) in
    let h_len = s.h_len + e.n + 1 in
    let joined = normalize_header_value value old h_len in
    let plain = record s {
      b = drop (e.n + 1) old;
      key = key;
      value = value;
      h_len = h_len;
      next_colon = e.colon;
      next_new_line = e.new_line;
    } in
    if leb (length old) e.n
    then failed need_more
    else if e.multi_line
    then header (record plain { value = joined.0; b = joined.1; h_len = joined.2 })
    else header plain

-- The part of `next` behind the spaces, of which there are `k`; `old` is `s.b`, and `none` does not
-- come about.
unfoldable pub scan_old : HeaderScanner → Bytes → ℕ → Bytes → Option Scanned
unfolding earlier find_new_line extend_value finish_header
scan_old s key k old = elim (find_new_line (earlier s.next_new_line k) old) [
  | none ↦ some (failed need_more)
  | some n ↦
      (elim (extend_value (length old + 1) old
        (record { n = n; colon = none; new_line = none; multi_line = false })) [
          | none ↦ none
          | some e ↦ some (finish_header s key old e)
        ])
]

unfoldable pub scan_behind : HeaderScanner → Bytes → Bytes → Option Scanned
unfolding spaces scan_old
scan_behind s key behind =
    let k = spaces behind in scan_old (record s { h_len = s.h_len + k }) key k (drop k behind)

-- The part of `next` behind the name, which ends at the index `n`.
unfoldable pub scan_value : HeaderScanner → ℕ → Option Scanned
unfolding scan_behind normalize_header_key
scan_value s n =
    scan_behind (record s { h_len = s.h_len + n + 1 })
      (normalize_header_key (take n s.b) s.disable_normalizing) (drop (n + 1) s.b)

-- `headerScanner.next`.
unfoldable pub next : HeaderScanner → Option Scanned
unfolding line_end find_colon scan_value
next s =
    let skip = line_end s.b in
    if ltb 0 skip
    then some (finished (record s { b = drop skip s.b; h_len = s.h_len + skip }))
    else (elim (find_colon s) [ err e ↦ some (failed e) | ok n ↦ scan_value s n ])
