-- ===== src/Header/Scanner/Lines.antt =====
-- What the scanner makes of a line that `appendHeaderLine` writes.
use justhttp.Base.{
  ℕ, suc, ◌+◌, ◌≡◌, refl, sym, ap, ◌∙◌, ◌≢◌, false, none, some, [], ◌∷◌, ◌++◌, append_assoc, arith,
  leb, length, take, drop, length-append, All-append, Bytes, Lacks, ok, index_byte,
  index_byte-append, take-length-append, drop-length-append,
}
use native.Mathlib.Numerals.{add-one}
use justhttp.Cookie.Scan.{trim_right}
use justhttp.Header.Key.{normalize_header_key}
use justhttp.Header.Value.{cut_return}
use justhttp.Header.Scanner.{
  HeaderScanner, header, line_end, name_end, find_colon, spaces, earlier, find_new_line, Extent,
  starts_blank, extend_value, trim_value, finish_header, scan_value, scan_old, next,
}

-- A header that can stand in a line of its own.
pub record IsLine (key value : Bytes) : Type 0 where
  pub key_colon : Lacks b':' key
  pub key_line : Lacks b'\n' key
  pub key_starts : starts_blank key ≡ false
  pub value_line : Lacks b'\n' value
  pub value_starts : spaces value ≡ 0
  pub value_ends : trim_right value ≡ value

-- The line, in front of more.
abbrev pub line_then : Bytes → Bytes → Bytes → Bytes
line_then key value rest = key ++ b':' ∷ b' ' ∷ (value ++ b'\r' ∷ b'\n' ∷ rest)

line_end-key : (key rest : Bytes) → Lacks b'\n' key → line_end (key ++ b':' ∷ rest) ≡ 0
unfolding line_end
line_end-key [] [] h = refl
line_end-key [] (d ∷ rest) h = refl
line_end-key (c ∷ []) rest (hc, h) = ground arith
line_end-key (c ∷ d ∷ key) rest (hc, (hd, h)) = ground arith

pub cut_return-append : (v : Bytes) → cut_return (v ++ b'\r' ∷ []) ≡ v
unfolding cut_return
cut_return-append [] = refl
cut_return-append (c ∷ []) = refl
cut_return-append (c ∷ d ∷ v) = ap (◌∷◌ c) (cut_return-append (d ∷ v))

spaces-append : (value rest : Bytes) → spaces value ≡ 0 → spaces (value ++ b'\r' ∷ rest) ≡ 0
unfolding spaces
spaces-append [] rest h = refl
spaces-append (c ∷ value) rest h = ground arith

-- The first '\n' behind a name and a value.
pub Lacks-line :
    (key value : Bytes)
    → IsLine key value
    → Lacks b'\n' (key ++ b':' ∷ b' ' ∷ (value ++ b'\r' ∷ []))
Lacks-line key value v =
    All-append (λ c. c ≢ b'\n') key (b':' ∷ b' ' ∷ (value ++ b'\r' ∷ [])) v.key_line
      (
        (λ e. ground (arith, e)),
        (
          (λ e. ground (arith, e)),
          All-append (λ c. c ≢ b'\n') value (b'\r' ∷ []) v.value_line
              ((λ e. ground (arith, e)), tt),
        ),
      )

pub line_assoc :
    (key value rest : Bytes)
    → line_then key value rest ≡ (key ++ b':' ∷ b' ' ∷ (value ++ b'\r' ∷ [])) ++ b'\n' ∷ rest
line_assoc key value rest = sym (
    append_assoc key (b':' ∷ b' ' ∷ (value ++ b'\r' ∷ [])) (b'\n' ∷ rest)
    ∙ ap (λ t. key ++ b':' ∷ b' ' ∷ t) (append_assoc value (b'\r' ∷ []) (b'\n' ∷ rest)))

-- A scanner that knows nothing of what stands ahead.
abbrev pub at : HeaderScanner → Bytes → HeaderScanner
at s b = record s { b = b; next_colon = none; next_new_line = none }

module _ (key value rest : Bytes) (v : IsLine key value) where
  find_colon-line :
      (s : HeaderScanner) → find_colon (at s (line_then key value rest)) ≡ ok (length key)
  unfolding find_colon name_end
  find_colon-line s =
      let colon = index_byte-append key (b' ' ∷ (value ++ b'\r' ∷ b'\n' ∷ rest)) b':' v.key_colon in
      let line =
        index_byte-append (key ++ b':' ∷ b' ' ∷ (value ++ b'\r' ∷ [])) rest b'\n'
          (Lacks-line key value v) in
      ground (
        arith,
        colon,
        line,
        ap (λ t. index_byte t b'\n') (line_assoc key value rest),
        length-append key (b':' ∷ b' ' ∷ (value ++ b'\r' ∷ [])),
      )

  abbrev value_then : Bytes
  value_then = value ++ b'\r' ∷ b'\n' ∷ rest

  abbrev value_line : Bytes
  value_line = value ++ b'\r' ∷ []

  value_assoc : value_then ≡ value_line ++ b'\n' ∷ rest
  value_assoc = sym (append_assoc value (b'\r' ∷ []) (b'\n' ∷ rest))

  new_line-value : index_byte value_then b'\n' ≡ some (length value_line)
  new_line-value = rw value_assoc (
      index_byte-append value_line rest b'\n' (
        All-append (λ c. c ≢ b'\n') value (b'\r' ∷ []) v.value_line ((λ e. ground (arith, e)), tt)))

  behind-value : drop (length value_line + 1) value_then ≡ rest
  behind-value =
      let e : length value_line + 1 ≡ suc (length value_line) = omega arith in
      rw (e, value_assoc) (drop-length-append value_line b'\n' rest)

  abbrev extent : Extent
  extent = record { n = length value_line; colon = none; new_line = none; multi_line = false }

  extend_value-line :
      (rounds : ℕ)
      → starts_blank rest ≡ false
      → extend_value (suc rounds) value_then extent ≡ some extent
  unfolding extend_value
  extend_value-line rounds h = rw (extend_value, behind-value) (rw h refl)

  take-value : take (length value_line) value_then ≡ value_line
  take-value = rw value_assoc (take-length-append value_line (b'\n' ∷ rest))

  trim_value-line : trim_value value_line ≡ value
  unfolding trim_value
  trim_value-line = rw (cut_return-append value) v.value_ends

  long_enough : leb (length value_then) (length value_line) ≡ false
  long_enough =
      ground (arith, length-append value (b'\r' ∷ []), length-append value (b'\r' ∷ b'\n' ∷ rest))

  finish_header-line :
      (s : HeaderScanner) (k : Bytes)
      → finish_header s k value_then extent
        ≡ header (record s {
          b = rest;
          key = k;
          value = value;
          h_len = s.h_len + length value_line + 1;
          next_colon = none;
          next_new_line = none;
        })
  unfolding finish_header
  finish_header-line s k =
      rw (finish_header, long_enough, behind-value, take-value) (rw trim_value-line refl)

  behind_name : drop (length key + 1) (line_then key value rest) ≡ b' ' ∷ value_then
  behind_name =
      let e : length key + 1 ≡ suc (length key) = omega arith in
      rw e (drop-length-append key b':' (b' ' ∷ value_then))

  one_space : spaces (b' ' ∷ value_then) ≡ 1
  unfolding spaces
  one_space = ground (arith, spaces-append value (b'\n' ∷ rest) v.value_starts)

  -- What the scanner has read.
  abbrev pub read_line : HeaderScanner → HeaderScanner
  read_line s = record (at s rest) {
    key = normalize_header_key key s.disable_normalizing;
    value = value;
    h_len = s.h_len + length key + 1 + 1 + length value_line + 1;
  }

  scan_old-line :
      (s : HeaderScanner) (k : Bytes) (n : ℕ)
      → starts_blank rest ≡ false
      → scan_old (at s (line_then key value rest)) k n value_then
        ≡ some (
            header (record (at s rest) {
              key = k;
              value = value;
              h_len = s.h_len + length value_line + 1;
            }))
  unfolding scan_old earlier find_new_line
  scan_old-line s k n h =
      rw (scan_old, new_line-value, add-one)
        (rw (extend_value-line (length value_then) h)
          (ap some (finish_header-line (at s (line_then key value rest)) k)))

  -- A line is read, whatever stands behind it that does not go on with the value.
  pub next-line :
      (s : HeaderScanner)
      → starts_blank rest ≡ false
      → next (at s (line_then key value rest)) ≡ some (header (read_line s))
  unfolding next scan_value
  next-line s h =
      rw (next, line_end-key key (b' ' ∷ value_then) v.key_line, find_colon-line s)
        (rw (take-length-append key (b':' ∷ b' ' ∷ value_then), behind_name, one_space)
          (scan_old-line (record s { h_len = s.h_len + length key + 1 + 1 })
            (normalize_header_key key s.disable_normalizing) 1 h))
