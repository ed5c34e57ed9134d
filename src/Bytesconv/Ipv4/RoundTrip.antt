-- ===== src/Bytesconv/Ipv4/RoundTrip.antt =====
-- An address that is written is read back.
use justhttp.Base.{
  ℕ, suc, ◌+◌, ◌<◌, ◌≡◌, refl, sym, ap, ◌∙◌, ◌≢◌, false, some, List, [], ◌∷◌, ◌++◌, append_assoc,
  arith, ltb, ◌==◌, length, length-append, All, Bytes, IsByte, Lacks, ok, index_byte-append,
  take-length-append, drop-length-append,
}
use justhttp.Bytesconv.Uint.{parse_uint, append_uint}
use justhttp.Bytesconv.Uint.Parse.{IsDigit, parse_uint_complete}
use justhttp.Bytesconv.Uint.Print.{append_uint_lem}
use justhttp.Bytesconv.Ipv4.{parse_part, parse_ip_parts, parse_ipv4, append_ip_parts, append_ipv4}

Lacks-digits : (b : Bytes) → All IsDigit b → Lacks b'.' b
Lacks-digits [] a = tt
Lacks-digits (c ∷ b) (h, a) = ((λ e. ground (arith, h, e)), Lacks-digits b a)

length_pos : (b : Bytes) → b ≢ [] → 0 < length b
length_pos [] h = absurd (h refl)
length_pos (c ∷ b) h = omega arith

-- A part is read back.
append_uint-part :
    (dst : Bytes) (v : ℕ)
    → IsByte v
    → (out : Bytes) × (append_uint dst v ≡ some (dst ++ out))
      × Lacks b'.' out
      × (parse_part out ≡ ok v)
      × (0 < length out)
unfolding parse_part
append_uint-part dst v small =
    let (out, written, digits, worth, some_out, short) =
      append_uint_lem dst v (omega (arith, small)) in
    let fits : ltb 255 v ≡ false = ground (arith, small) in
    let read : parse_uint out ≡ ok v =
      parse_uint_complete out some_out digits (omega (arith, worth, small)) ∙ ap ok worth in
    (
      out,
      written,
      Lacks-digits out digits,
      rw (parse_part, read, fits) refl,
      length_pos out some_out,
    )

parts_back :
    (dst : Bytes) (v : ℕ) (vs : List ℕ)
    → All IsByte (v ∷ vs)
    → (out : Bytes) × (append_ipv4 dst (v ∷ vs) ≡ some (dst ++ out))
      × (parse_ip_parts (length vs) out ≡ ok (v ∷ vs))
      × (0 < length out)
unfolding append_ipv4 append_ip_parts parse_ip_parts
parts_back dst v [] (h, a) =
    let (out, written, dots, read, pos) = append_uint-part dst v h in
    (out, rw (append_ipv4, written) refl, rw read refl, pos)
parts_back dst v (w ∷ vs) (h, a) =
    let (out, written, no_dot, read, pos) = append_uint-part dst v h in
    let (more, written_more, read_more, pos_more) = parts_back ((dst ++ out) ++ b'.' ∷ []) w vs a in
    let e : length out + 1 ≡ suc (length out) = omega arith in
    (
      out ++ b'.' ∷ more,
      rw (append_ipv4, written)
          (written_more
            ∙ ap some
                (append_assoc (dst ++ out) (b'.' ∷ []) more ∙ append_assoc dst out (b'.' ∷ more))),
      rw (parse_ip_parts, index_byte-append out more b'.' no_dot, e)
          (rw (take-length-append out (b'.' ∷ more), drop-length-append out b'.' more)
            (rw (read, read_more) refl)),
      omega (arith, length-append out (b'.' ∷ more), pos),
    )

-- `ParseIPv4` reads back what `AppendIPv4` appends for four bytes.
pub parse_ipv4-append_ipv4 :
    (dst : Bytes) (ip : List ℕ)
    → All IsByte ip
    → length ip ≡ 4
    → (out : Bytes) × (append_ipv4 dst ip ≡ some (dst ++ out)) × (parse_ipv4 out ≡ ok ip)
unfolding parse_ipv4
parse_ipv4-append_ipv4 dst [] a four = absurd (omega (arith, four))
parse_ipv4-append_ipv4 dst (v ∷ vs) a four =
    let (out, written, read, pos) = parts_back dst v vs a in
    let three : length vs ≡ 3 = omega (arith, four) in
    let some_out : (length out == 0) ≡ false = ground (arith, pos) in
    (out, written, rw (parse_ipv4, some_out) (ap (λ k. parse_ip_parts k out) (sym three) ∙ read))
