-- ===== src/Args/Scanner/Cut.antt =====
-- Query strings described without a scanner: parts between '&', each cut at its first '='.
use justhttp.Base.{
  ℕ, ◌-◌, ◌≤◌, ◌≡◌, refl, sym, inl, inr, true, false, ◌||◌, Option, none, some, List, [], ◌∷◌, map,
  arith, ltb, ◌==◌, if◌then◌else◌, Bool-cases, length, Bytes,
}
use justhttp.Args.Slots.{ArgsKv}
use justhttp.Bytesconv.Quote.{decode_arg_append}

abbrev cons_before : ℕ → Bytes × Option Bytes → Bytes × Option Bytes
cons_before c (p, r) = (c ∷ p, r)

-- The text before the first `sep`, and the text behind it if there is one.
abbrev pub cut_at : ℕ → Bytes → Bytes × Option Bytes
cut_at sep [] = ([], none)
cut_at sep (c ∷ b) = if c == sep then ([], some b) else cons_before c (cut_at sep b)

abbrev cons_head : ℕ → List Bytes → List Bytes
cons_head c [] = (c ∷ []) ∷ []
cons_head c (p ∷ ps) = (c ∷ p) ∷ ps

-- The parts of a text between the bytes `sep`.
abbrev pub split : ℕ → Bytes → List Bytes
split sep [] = [] ∷ []
split sep (c ∷ b) = if c == sep then [] ∷ split sep b else cons_head c (split sep b)

abbrev pub parts_from : ℕ → Bytes × Option Bytes → List Bytes
parts_from sep (p, none) = p ∷ []
parts_from sep (p, some r) = p ∷ split sep r

parts_from-cons_before :
    (sep c : ℕ) (u : Bytes × Option Bytes)
    → parts_from sep (cons_before c u) ≡ cons_head c (parts_from sep u)
parts_from-cons_before sep c (p, none) = refl
parts_from-cons_before sep c (p, some r) = refl

pub split-cut_at : (sep : ℕ) (b : Bytes) → split sep b ≡ parts_from sep (cut_at sep b)
split-cut_at sep [] = refl
split-cut_at sep (c ∷ b) = elim (Bool-cases (c == sep)) [
  | inl at ↦ rw at
  | inr off ↦ rw (off, split-cut_at sep b) (sym (parts_from-cons_before sep c (cut_at sep b)))
]

abbrev pub rest_of : Option Bytes → Bytes
rest_of none = []
rest_of (some r) = r

pub length-rest_of-cut_at : (sep : ℕ) (b : Bytes) → length (rest_of (cut_at sep b).1) ≤ length b - 1
length-rest_of-cut_at sep [] = omega arith
length-rest_of-cut_at sep (c ∷ b) = ground (arith, length-rest_of-cut_at sep b)

-- A part with no '=' is a key with no value.
abbrev pub arg_from : Bytes × Option Bytes → ArgsKv
arg_from (k, none) = record { key = decode_arg_append [] k; value = []; no_value = true }
arg_from (k, some v) = record {
  key = decode_arg_append [] k;
  value = decode_arg_append [] v;
  no_value = false;
}

-- An argument counts if it has a key or a value.
abbrev pub keep_first : ArgsKv → List ArgsKv → List ArgsKv
keep_first kv kvs = if ltb 0 (length kv.key) || ltb 0 (length kv.value) then kv ∷ kvs else kvs

abbrev pub keep_filled : List ArgsKv → List ArgsKv
keep_filled [] = []
keep_filled (kv ∷ kvs) = keep_first kv (keep_filled kvs)

unfoldable pub query_args : Bytes → List ArgsKv
query_args b = keep_filled (map (λ p. arg_from (cut_at b'=' p)) (split b'&' b))
