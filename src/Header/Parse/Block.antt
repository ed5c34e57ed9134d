-- ===== src/Header/Parse/Block.antt =====
-- What the scanner makes of the lines of a header, up to the empty line behind them.
use justhttp.Base.{
  ℕ, zero, suc, ◌+◌, ◌≤◌, ◌<◌, ◌≡◌, refl, Bool, false, none, List, [], ◌∷◌, ◌++◌, arith, length,
  length-append, All, Bytes, ok,
}
use justhttp.Header.Key.{normalize_header_key}
use justhttp.Header.Scanner.{HeaderScanner, line_end, starts_blank, next}
use justhttp.Header.Scanner.Lines.{IsLine, line_then, at, read_line, next-line}
use justhttp.Header.Parse.{scan_loop}

-- The lines of headers, in front of more.
abbrev pub lines_then : List (Bytes × Bytes) → Bytes → Bytes
lines_then [] rest = rest
lines_then (kv ∷ kvs) rest = line_then kv.0 kv.1 (lines_then kvs rest)

abbrev pub AreLines : List (Bytes × Bytes) → Type 0
AreLines kvs = All (λ kv. IsLine kv.0 kv.1) kvs

-- The empty line, in front of a body.
abbrev pub end_then : Bytes → Bytes
end_then body = b'\r' ∷ b'\n' ∷ body

starts_blank-key :
    (key rest : Bytes) → starts_blank key ≡ false → starts_blank (key ++ b':' ∷ rest) ≡ false
starts_blank-key [] rest h = refl
starts_blank-key (c ∷ key) rest h = h

starts_blank-lines :
    (kvs : List (Bytes × Bytes)) (body : Bytes)
    → AreLines kvs
    → starts_blank (lines_then kvs (end_then body)) ≡ false
starts_blank-lines [] body a = refl
starts_blank-lines (kv ∷ kvs) body (h, a) =
    starts_blank-key kv.0 (b' ' ∷ (kv.1 ++ end_then (lines_then kvs (end_then body)))) h.key_starts

pub length-line :
    (key value rest : Bytes)
    → length (line_then key value rest) ≡ length key + length value + 4 + length rest
length-line key value rest = omega (
  arith,
  length-append key (b':' ∷ b' ' ∷ (value ++ end_then rest)),
  length-append value (end_then rest),
)

pub le-length-lines :
    (kvs : List (Bytes × Bytes)) (rest : Bytes) → length kvs ≤ length (lines_then kvs rest)
le-length-lines [] rest = omega arith
le-length-lines (kv ∷ kvs) rest =
    omega (arith, length-line kv.0 kv.1 (lines_then kvs rest), le-length-lines kvs rest)

module _ {S : Type 0} (step : S → Bytes → Bytes → S) where
  -- The headers taken one after another, their names in normal form.
  abbrev pub fold_headers : Bool → S → List (Bytes × Bytes) → S
  fold_headers plain st [] = st
  fold_headers plain st (kv ∷ kvs) =
      fold_headers plain (step st (normalize_header_key kv.0 plain) kv.1) kvs

  -- The loop over the lines of headers that can stand in a line takes each once, in order, with its
  -- name in normal form, and stops behind the empty line, with the length of all it has read.
  pub scan_loop-lines :
      (kvs : List (Bytes × Bytes)) (body : Bytes) (rounds : ℕ) (st : S) (s : HeaderScanner)
      → AreLines kvs
      → length kvs < rounds
      → (end_scanner : HeaderScanner) × (scan_loop step rounds st
            (at s (lines_then kvs (end_then body)))
          ≡ ok (fold_headers s.disable_normalizing st kvs, end_scanner))
        × (end_scanner.b ≡ body)
        × (end_scanner.h_len + length body ≡ s.h_len + length (lines_then kvs (end_then body)))
  unfolding scan_loop next line_end
  scan_loop-lines kvs body zero st s a h = absurd (omega arith)
  scan_loop-lines [] body (suc rounds) st s a h = (
    record s { b = body; h_len = s.h_len + 2; next_colon = none; next_new_line = none },
    refl,
    refl,
    omega arith,
  )
  scan_loop-lines (kv ∷ kvs) body (suc rounds) st s (here, a) h =
      let rest = lines_then kvs (end_then body) in
      let s' = read_line kv.0 kv.1 rest here s in
      let read = next-line kv.0 kv.1 rest here s (starts_blank-lines kvs body a) in
      let (t, looped, behind, sum) =
        scan_loop-lines kvs body rounds (step st s'.key s'.value) s' a (omega arith) in
      (
        t,
        rw (scan_loop, read) looped,
        behind,
        omega (arith, sum, length-line kv.0 kv.1 rest, length-append kv.1 (b'\r' ∷ [])),
      )
