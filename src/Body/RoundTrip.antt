-- ===== src/Body/RoundTrip.antt =====
-- What is read of a body that has been written in chunks.
use justhttp.Base.{
  ℕ, zero, suc, ◌+◌, ◌^◌, ◌≤◌, ◌<◌, ◌≡◌, refl, ap, ◌∙◌, inl, inr, false, some, List, [], ◌∷◌, ◌++◌,
  append-nil, append_assoc, arith, ◌==◌, if◌then◌else◌, Bool-cases, length, length-append, All,
  Bytes, Result, ok, err,
}
use justhttp.Bytesconv.HexInt.{ReadEnd}
use justhttp.Body.{
  BodyError, body_too_large, parse_chunk_size, exceeds, read_chunks, read_body_chunked,
  write_body_chunked,
}
use justhttp.Body.Chunk.{line_end_then, write_chunk-size, read_chunk-line_end}

abbrev pub joined : List Bytes → Bytes
joined [] = []
joined (p ∷ pieces) = p ++ joined pieces

-- What `r.Read` may hand out, within what a size is written with.
abbrev pub IsPiece : Bytes → Type 0
IsPiece p = (0 < length p) × (length p < 16 ^ 15)

-- What comes of a body behind what has been read.
abbrev outcome : ℕ → Bytes → Bytes → Bytes → Result BodyError (Bytes × Bytes)
outcome max dst body rest =
    if exceeds max (length (dst ++ body)) then err body_too_large else ok (dst ++ body, rest)

-- A round of the loop, in front of a chunk.
read_chunks-round :
    (rounds : ℕ) (end : ReadEnd) (max : ℕ) (dst b p rest : Bytes)
    → length dst + (length p + 2) ≤ 2 ^ 31
    → parse_chunk_size end b ≡ ok (length p, p ++ line_end_then rest)
    → read_chunks (suc rounds) end max dst b ≡ (
        if exceeds max (length dst + length p)
        then err body_too_large
        else if length p == 0
        then ok (dst ++ p, rest)
        else read_chunks rounds end max (dst ++ p) rest)
unfolding read_chunks
read_chunks-round rounds end max dst b p rest small sized =
    elim (Bool-cases (exceeds max (length dst + length p))) [
      | inl over ↦ rw (read_chunks, sized, over) refl
      | inr within_max ↦
          rw (read_chunks, sized, within_max) (rw (read_chunk-line_end end dst p rest small) refl)
    ]

outcome-nil :
    (max : ℕ) (dst rest : Bytes)
    → exceeds max (length dst) ≡ false
    → (if exceeds max (length dst + 0) then err body_too_large else ok (dst ++ [], rest))
      ≡ outcome max dst [] rest
outcome-nil max dst rest fits =
    let e : length dst + 0 ≡ length dst = omega arith in rw (e, append-nil dst) refl

outcome-append :
    (max : ℕ) (dst p body rest : Bytes)
    → (if exceeds max (length dst + length p)
        then err body_too_large
        else outcome max (dst ++ p) body rest)
      ≡ outcome max dst (p ++ body) rest
unfolding exceeds
outcome-append max dst p body rest =
    rw (append_assoc dst p body)
      (ground (arith, length-append dst p, length-append dst (p ++ body), length-append p body))

read_chunks-end :
    (size : Bytes) (end : ReadEnd) (max : ℕ) (rest dst : Bytes) (rounds : ℕ)
    → parse_chunk_size end (size ++ line_end_then (line_end_then rest)) ≡ ok (0, line_end_then rest)
    → 0 < rounds
    → length dst + 2 ≤ 2 ^ 31
    → exceeds max (length dst) ≡ false
    → read_chunks rounds end max dst ((size ++ line_end_then (line_end_then [])) ++ rest)
      ≡ outcome max dst [] rest
read_chunks-end size end max rest dst zero sized h small fits = absurd (omega arith)
read_chunks-end size end max rest dst (suc rounds) sized h small fits =
    ap (read_chunks (suc rounds) end max dst)
      (append_assoc size (line_end_then (line_end_then [])) rest)
    ∙ read_chunks-round rounds end max dst (size ++ line_end_then (line_end_then rest)) [] rest
        (omega (arith, small)) sized
    ∙ outcome-nil max dst rest fits

piece_assoc :
    (size p more rest : Bytes)
    → ((size ++ line_end_then (p ++ line_end_then [])) ++ more) ++ rest
      ≡ size ++ line_end_then (p ++ line_end_then (more ++ rest))
piece_assoc size p more rest =
    append_assoc (size ++ line_end_then (p ++ line_end_then [])) more rest
    ∙ append_assoc size (line_end_then (p ++ line_end_then [])) (more ++ rest)
    ∙ ap (λ t. size ++ line_end_then t) (append_assoc p (line_end_then []) (more ++ rest))

read_chunks-piece :
    (size p more : Bytes) (pieces : List Bytes) (end : ReadEnd) (max : ℕ) (rest dst : Bytes)
    (rounds : ℕ)
    → 0 < length p
    → length dst + (length p + 2) ≤ 2 ^ 31
    → parse_chunk_size end (size ++ line_end_then (p ++ line_end_then (more ++ rest)))
      ≡ ok (length p, p ++ line_end_then (more ++ rest))
    → (exceeds max (length (dst ++ p)) ≡ false
        → read_chunks rounds end max (dst ++ p) (more ++ rest)
          ≡ outcome max (dst ++ p) (joined pieces) rest)
    → read_chunks
        (suc rounds)
        end
        max
        dst
        (((size ++ line_end_then (p ++ line_end_then [])) ++ more) ++ rest)
      ≡ outcome max dst (p ++ joined pieces) rest
read_chunks-piece size p more pieces end max rest dst rounds pos small sized later =
    let e : length (dst ++ p) ≡ length dst + length p = length-append dst p in
    ap (read_chunks (suc rounds) end max dst) (piece_assoc size p more rest)
    ∙ read_chunks-round rounds end max dst
        (size ++ line_end_then (p ++ line_end_then (more ++ rest))) p (more ++ rest) small sized
    ∙ ground (arith, pos, ap (exceeds max) e, later)
    ∙ outcome-append max dst p (joined pieces) rest

read_chunks-pieces :
    (size p more : Bytes) (pieces : List Bytes) (end : ReadEnd) (max : ℕ) (rest dst : Bytes)
    (rounds : ℕ)
    → 0 < length p
    → parse_chunk_size end (size ++ line_end_then (p ++ line_end_then (more ++ rest)))
      ≡ ok (length p, p ++ line_end_then (more ++ rest))
    → ((rounds : ℕ) (dst : Bytes)
        → length pieces < rounds
        → length dst + length (joined pieces) + 2 ≤ 2 ^ 31
        → exceeds max (length dst) ≡ false
        → read_chunks rounds end max dst (more ++ rest) ≡ outcome max dst (joined pieces) rest)
    → suc (length pieces) < rounds
    → length dst + length (p ++ joined pieces) + 2 ≤ 2 ^ 31
    → exceeds max (length dst) ≡ false
    → read_chunks rounds end max dst
        (((size ++ line_end_then (p ++ line_end_then [])) ++ more) ++ rest)
      ≡ outcome max dst (p ++ joined pieces) rest
read_chunks-pieces size p more pieces end max rest dst zero pos sized later h small fits =
    absurd (omega arith)
read_chunks-pieces size p more pieces end max rest dst (suc rounds) pos sized later h small fits =
    read_chunks-piece size p more pieces end max rest dst rounds pos
      (omega (arith, small, length-append p (joined pieces))) sized
      (later rounds (dst ++ p) (omega arith)
        (omega (arith, small, length-append p (joined pieces), length-append dst p)))

read_chunks-written :
    (pieces : List Bytes) (end : ReadEnd) (max : ℕ) (rest : Bytes)
    → All IsPiece pieces
    → (out : Bytes) × (write_body_chunked pieces ≡ some out)
      × (length pieces < length out)
      × ((rounds : ℕ) (dst : Bytes)
          → length pieces < rounds
          → length dst + length (joined pieces) + 2 ≤ 2 ^ 31
          → exceeds max (length dst) ≡ false
          → read_chunks rounds end max dst (out ++ rest) ≡ outcome max dst (joined pieces) rest)
unfolding write_body_chunked read_chunks exceeds
read_chunks-written [] end max rest a =
    let (size, written, reads) = write_chunk-size [] (line_end_then rest) end (omega arith) in
    (
      size ++ line_end_then (line_end_then []),
      written,
      omega (arith, length-append size (line_end_then (line_end_then []))),
      λ rounds dst h small.
          read_chunks-end size end max rest dst rounds reads h (omega (arith, small)),
    )
read_chunks-written (p ∷ pieces) end max rest (h, a) =
    let (more, written_more, le, reads_more) = read_chunks-written pieces end max rest a in
    let (size, written, reads) = write_chunk-size p (p ++ line_end_then (more ++ rest)) end h.1 in
    (
      (size ++ line_end_then (p ++ line_end_then [])) ++ more,
      rw (write_body_chunked, written, written_more) refl,
      omega (
        arith,
        le,
        length-append (size ++ line_end_then (p ++ line_end_then [])) more,
        length-append size (line_end_then (p ++ line_end_then [])),
      ),
      λ rounds dst.
          read_chunks-pieces size p more pieces end max rest dst rounds h.0 reads reads_more,
    )

-- What `writeBodyChunked` writes for the pieces of a body, none of them empty and together at most 2
-- to the 31 bytes with a line end, `readBodyChunked` reads back: the pieces joined, up to what stands
-- behind them; if a limit is set and they are longer, it is the error that the body is too large.
pub read_body_chunked-write_body_chunked :
    (pieces : List Bytes) (end : ReadEnd) (max : ℕ) (rest : Bytes)
    → All IsPiece pieces
    → length (joined pieces) + 2 ≤ 2 ^ 31
    → (out : Bytes) × (write_body_chunked pieces ≡ some out)
      × (read_body_chunked end max (out ++ rest) ≡ (
          if exceeds max (length (joined pieces))
          then err body_too_large
          else ok (joined pieces, rest)))
unfolding read_body_chunked exceeds
read_body_chunked-write_body_chunked pieces end max rest a small =
    let (out, written, le, reads) = read_chunks-written pieces end max rest a in
    (
      out,
      written,
      reads (length (out ++ rest) + 1) [] (omega (arith, le, length-append out rest))
          (omega (arith, small)) (ground arith),
    )
