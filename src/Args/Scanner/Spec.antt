-- ===== src/Args/Scanner/Spec.antt =====
-- The scanner finds the parts of a query string.
use justhttp.Base.{
  ℕ, zero, suc, ◌+◌, ◌<◌, ◌≡◌, refl, ap, ◌∙◌, inl, inr, true, false, Option, none, some, List, [],
  ◌∷◌, ◌++◌, map, append-nil, append_assoc, arith, Bool-cases, length, Bytes, index_byte,
}
use justhttp.Args.Slots.{ArgsKv, Slots, alloc_arg, reset}
use justhttp.Args.Scanner.Cut.{
  cut_at, parts_from, split-cut_at, rest_of, length-rest_of-cut_at, arg_from, keep_first,
  keep_filled, query_args,
}
use justhttp.Args.Scanner.{next_loop, next, is_filled, parse_loop, parse_bytes}
use justhttp.Bytesconv.Quote.{decode_arg_append}

-- The bytes in front of a cut text belong to its first part.
abbrev prefixed : Bytes → Bytes × Option Bytes → Bytes × Option Bytes
prefixed seen (k, r) = (seen ++ k, r)

next_loop-value :
    (b seen : Bytes) (kv : ArgsKv)
    → next_loop false seen kv b ≡ (
      record kv { value = decode_arg_append [] (seen ++ (cut_at b'&' b).0) },
      rest_of (cut_at b'&' b).1,
    )
unfolding next_loop
next_loop-value [] seen kv = rw (append-nil seen)
next_loop-value (c ∷ b) seen kv = ground (
  arith,
  next_loop-value b (seen ++ c ∷ []) kv,
  append_assoc seen (c ∷ []) (cut_at b'&' b).0,
  append-nil seen,
)

next_loop-key :
    (b seen : Bytes) (kv : ArgsKv)
    → kv.no_value ≡ false
    → next_loop true seen kv b
      ≡ (arg_from (prefixed seen (cut_at b'=' (cut_at b'&' b).0)), rest_of (cut_at b'&' b).1)
unfolding next_loop
next_loop-key [] seen kv h = rw (append-nil seen)
next_loop-key (c ∷ b) seen kv h = ground (
  arith,
  next_loop-key b (seen ++ c ∷ []) kv h,
  next_loop-value b [] (record kv { key = decode_arg_append [] seen }),
  append_assoc seen (c ∷ []) (cut_at b'=' (cut_at b'&' b).0).0,
  append-nil seen,
)

next_lem :
    (c : ℕ) (b : Bytes) (kv : ArgsKv)
    → next (c ∷ b) kv
      ≡ some (arg_from (cut_at b'=' (cut_at b'&' (c ∷ b)).0), rest_of (cut_at b'&' (c ∷ b)).1)
unfolding next
next_lem c b kv = ap some (next_loop-key (c ∷ b) [] (record kv { no_value = false }) refl)

pub query_args-nil : query_args [] ≡ []
unfolding query_args decode_arg_append index_byte
query_args-nil = refl

-- The first part of a query string, and the parts behind it.
query_args-cut_at :
    (b : Bytes)
    → query_args b
      ≡ keep_first
          (arg_from (cut_at b'=' (cut_at b'&' b).0))
          (query_args (rest_of (cut_at b'&' b).1))
unfolding query_args
query_args-cut_at b = rw (split-cut_at b'&' b) (after (cut_at b'&' b))
  where
    after :
        (u : Bytes × Option Bytes)
        → keep_filled (map (λ p. arg_from (cut_at b'=' p)) (parts_from b'&' u))
          ≡ keep_first (arg_from (cut_at b'=' u.0)) (query_args (rest_of u.1))
    after (p, none) = rw query_args-nil
    after (p, some r) = refl

-- What the scanner finds behind `args`, whatever stood in the slots.
abbrev Finds : List ArgsKv → Bytes → Option Slots → Type 0
Finds args b found = (h : Slots) × (found ≡ some h) × (h.visible ≡ args ++ query_args b)

-- What the first part of `b` adds to the arguments found.
found_filled :
    (args : List ArgsKv) (b : Bytes)
    → is_filled (arg_from (cut_at b'=' (cut_at b'&' b).0)) ≡ true
    → (args ++ arg_from (cut_at b'=' (cut_at b'&' b).0) ∷ [])
        ++ query_args (rest_of (cut_at b'&' b).1)
      ≡ args ++ query_args b
found_filled args b h = rw (query_args-cut_at b, h) (append_assoc args _ _)

found_empty :
    (args : List ArgsKv) (b : Bytes)
    → is_filled (arg_from (cut_at b'=' (cut_at b'&' b).0)) ≡ false
    → args ++ query_args (rest_of (cut_at b'&' b).1) ≡ args ++ query_args b
found_empty args b h = rw (query_args-cut_at b, h)

parse_loop-Finds :
    (rounds : ℕ) (args : List ArgsKv) (kv : ArgsKv) (spare : List ArgsKv) (b : Bytes)
    → length b < rounds
    → Finds args b (parse_loop rounds args kv spare b)
unfolding parse_loop
parse_loop-Finds zero args kv spare b h = absurd (omega arith)
parse_loop-Finds (suc rounds) args kv spare [] h = (
  record { visible = args; spare = kv ∷ spare },
  unfold next in refl,
  rw (query_args-nil, append-nil args),
)
parse_loop-Finds (suc rounds) args kv spare (c ∷ b) h =
    let shorter = length-rest_of-cut_at b'&' (c ∷ b) in
    elim (Bool-cases (is_filled (arg_from (cut_at b'=' (cut_at b'&' (c ∷ b)).0)))) [
      | inl filled ↦
          let (s, e, v) =
            parse_loop-Finds rounds (args ++ arg_from (cut_at b'=' (cut_at b'&' (c ∷ b)).0) ∷ [])
              (alloc_arg spare).0 (alloc_arg spare).1 (rest_of (cut_at b'&' (c ∷ b)).1)
              (omega arith) in
          (s, rw (parse_loop, next_lem c b kv, filled) e, v ∙ found_filled args (c ∷ b) filled)
      | inr empty ↦
          let (s, e, v) =
            parse_loop-Finds rounds args (arg_from (cut_at b'=' (cut_at b'&' (c ∷ b)).0)) spare
              (rest_of (cut_at b'&' (c ∷ b)).1) (omega arith) in
          (s, rw (parse_loop, next_lem c b kv, empty) e, v ∙ found_empty args (c ∷ b) empty)
    ]

-- `ParseBytes` finishes on every text, and leaves the arguments of the text, whatever the object
-- held before and whatever stood in the slots that it uses again.
pub parse_bytes-query_args :
    (h : Slots) (b : Bytes)
    → (h' : Slots) × (parse_bytes h b ≡ some h') × (h'.visible ≡ query_args b)
unfolding parse_bytes
parse_bytes-query_args h b =
    parse_loop-Finds (length b + 1) [] (alloc_arg (reset h).spare).0 (alloc_arg (reset h).spare).1 b
      (omega arith)
