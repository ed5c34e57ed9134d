-- ===== src/Header/Parse/Raw.antt =====
-- The lines of a header are copied as they are, and the first line is cut off.
use justhttp.Base.{
  ℕ, zero, suc, ◌+◌, ◌≤◌, ◌<◌, ◌≡◌, refl, sym, ap, ◌∙◌, ◌≢◌, inl, inr, false, some, List, [], ◌∷◌,
  ◌++◌, append_assoc, arith, Bool-cases, length, take, drop, length-append, All-append, Bytes,
  Lacks, equal, equal_iff, ok, index_byte, index_byte-append, take-length-append,
  drop-length-append,
}
use justhttp.Header.Value.{next_line}
use justhttp.Header.Scanner.Lines.{IsLine, line_assoc, Lacks-line, cut_return-append}
use justhttp.Header.Parse.{skip_empty_lines, raw_loop, read_raw_headers}
use justhttp.Header.Parse.Block.{lines_then, AreLines, end_then, le-length-lines, length-line}

-- A line up to its '\r'.
abbrev up_to_return : Bytes → Bytes → Bytes
up_to_return key value = key ++ b':' ∷ b' ' ∷ (value ++ b'\r' ∷ [])

abbrev whole : Bytes → Bytes → Bytes
whole key value = up_to_return key value ++ b'\n' ∷ []

take_line : (s rest : Bytes) → take (suc (length s)) (s ++ b'\n' ∷ rest) ≡ s ++ b'\n' ∷ []
take_line [] rest = refl
take_line (c ∷ s) rest = ap (◌∷◌ c) (take_line s rest)

cut_line :
    (s rest : Bytes)
    → Lacks b'\n' s
    → (index_byte (s ++ b'\n' ∷ rest) b'\n' ≡ some (length s))
      × (take (length s + 1) (s ++ b'\n' ∷ rest) ≡ s ++ b'\n' ∷ [])
      × (drop (length s + 1) (s ++ b'\n' ∷ rest) ≡ rest)
cut_line s rest h =
    let e : length s + 1 ≡ suc (length s) = omega arith in
    (
      index_byte-append s rest b'\n' h,
      rw e (take_line s rest),
      rw e (drop-length-append s b'\n' rest),
    )

length-whole : (key value : Bytes) → 4 ≤ length (whole key value)
length-whole key value = omega (
  arith,
  length-append (up_to_return key value) (b'\n' ∷ []),
  length-append key (b':' ∷ b' ' ∷ (value ++ b'\r' ∷ [])),
  length-append value (b'\r' ∷ []),
)

not_equal : (a b : Bytes) → length b < length a → equal a b ≡ false
not_equal a b h = elim (Bool-cases (equal a b)) [
  | inl same ↦ absurd (omega (arith, ap length ((equal_iff a b).0 same)))
  | inr other ↦ other
]

not_empty_line :
    (key value : Bytes)
    → (equal (whole key value) (b'\r' ∷ b'\n' ∷ []) ≡ false)
      × (equal (whole key value) (b'\n' ∷ []) ≡ false)
not_empty_line key value = (
  not_equal (whole key value) (b'\r' ∷ b'\n' ∷ []) (omega (arith, length-whole key value)),
  not_equal (whole key value) (b'\n' ∷ []) (omega (arith, length-whole key value)),
)

module _ (key value rest : Bytes) (v : IsLine key value) where
  raw_loop-line :
      (seen : Bytes) (rounds : ℕ)
      → raw_loop (suc rounds) seen (up_to_return key value ++ b'\n' ∷ rest)
        ≡ raw_loop rounds (seen ++ whole key value) rest
  unfolding raw_loop
  raw_loop-line seen rounds =
      let (found, taken, dropped) =
        cut_line (up_to_return key value) rest (Lacks-line key value v) in
      let (no_return, no_line) = not_empty_line key value in
      rw (raw_loop, found) (rw (taken, dropped) (rw (no_return, no_line) refl))

  read_raw_headers-line :
      read_raw_headers (up_to_return key value ++ b'\n' ∷ rest)
      ≡ raw_loop (length (up_to_return key value ++ b'\n' ∷ rest)) (whole key value) rest
  unfolding read_raw_headers
  read_raw_headers-line =
      let (found, taken, dropped) =
        cut_line (up_to_return key value) rest (Lacks-line key value v) in
      let (no_return, no_line) = not_empty_line key value in
      rw (read_raw_headers, found) (rw (taken, dropped) (rw (no_return, no_line) refl))

raw_loop-lines :
    (kvs : List (Bytes × Bytes)) (body seen : Bytes) (rounds : ℕ)
    → AreLines kvs
    → length kvs < rounds
    → (raw : Bytes) × (raw_loop rounds seen (lines_then kvs (end_then body)) ≡ ok raw)
unfolding raw_loop equal index_byte
raw_loop-lines kvs body seen zero a h = absurd (omega arith)
raw_loop-lines [] body seen (suc rounds) a h = (seen ++ b'\r' ∷ b'\n' ∷ [], refl)
raw_loop-lines (kv ∷ kvs) body seen (suc rounds) (here, a) h =
    let rest = lines_then kvs (end_then body) in
    let (raw, looped) = raw_loop-lines kvs body (seen ++ whole kv.0 kv.1) rounds a (omega arith) in
    (
      raw,
      ap (raw_loop (suc rounds) seen) (line_assoc kv.0 kv.1 rest)
          ∙ raw_loop-line kv.0 kv.1 rest here seen rounds
          ∙ looped,
    )

-- `readRawHeaders` finds the end of lines that can stand in a header.
pub read_raw_headers-lines :
    (kvs : List (Bytes × Bytes)) (body : Bytes)
    → AreLines kvs
    → (raw : Bytes) × (read_raw_headers (lines_then kvs (end_then body)) ≡ ok raw)
unfolding read_raw_headers equal index_byte
read_raw_headers-lines [] body a = ([], refl)
read_raw_headers-lines (kv ∷ kvs) body (here, a) =
    let rest = lines_then kvs (end_then body) in
    let same = line_assoc kv.0 kv.1 rest in
    let (raw, looped) =
      raw_loop-lines kvs body (whole kv.0 kv.1) (length (up_to_return kv.0 kv.1 ++ b'\n' ∷ rest)) a
        (omega (
          arith,
          ap length same,
          length-line kv.0 kv.1 rest,
          le-length-lines kvs (end_then body),
        )) in
    (raw, ap read_raw_headers same ∙ read_raw_headers-line kv.0 kv.1 rest here ∙ looped)

next_line-line :
    (line rest : Bytes)
    → Lacks b'\n' line
    → next_line (line ++ b'\r' ∷ b'\n' ∷ rest) ≡ some (line, rest)
unfolding next_line
next_line-line line rest h =
    let full : Bytes = line ++ b'\r' ∷ [] in
    let (found, taken, dropped) =
      cut_line full rest
        (All-append (λ d. d ≢ b'\n') line (b'\r' ∷ []) h ((λ e. ground (arith, e)), tt)) in
    ap next_line (sym (append_assoc line (b'\r' ∷ []) (b'\n' ∷ rest)))
    ∙ rw (next_line, found)
        (rw (take-length-append full (b'\n' ∷ rest), dropped, cut_return-append line) refl)

-- A line that is not empty is the first.
pub skip_empty_lines-line :
    (line rest : Bytes) (rounds : ℕ)
    → Lacks b'\n' line
    → 0 < length line
    → skip_empty_lines (rounds + 1) (line ++ b'\r' ∷ b'\n' ∷ rest) ≡ ok (line, rest)
unfolding skip_empty_lines
skip_empty_lines-line [] rest rounds h pos = absurd (omega arith)
skip_empty_lines-line (c ∷ line) rest rounds h pos =
    let e : rounds + 1 ≡ suc rounds = omega arith in
    rw (e, skip_empty_lines, next_line-line (c ∷ line) rest h) refl
