-- ===== src/Args/Query/RoundTrip.antt =====
-- `ParseBytes` reads back what `AppendBytes` writes.
use justhttp.Base.{
  ℕ, ◌≡◌, refl, sym, ap, ◌∙◌, ◌≢◌, ◌⊎◌, inl, inr, Bool, true, false, none, some, List, [], ◌∷◌,
  ◌++◌, append-nil, append_assoc, arith, if◌then◌else◌, All, All-append, Bytes, IsByte, Lacks,
}
use justhttp.Args.Slots.{ArgsKv, Slots}
use justhttp.Args.Query.{append_kv, append_bytes}
use justhttp.Args.Scanner.{parse_bytes}
use justhttp.Args.Scanner.Cut.{cut_at, split, arg_from, keep_first, query_args}
use justhttp.Args.Scanner.Spec.{parse_bytes-query_args, query_args-nil}
use justhttp.Bytesconv.Quote.{append_quoted_arg, decode_arg_append}
use justhttp.Bytesconv.Quote.Safe.{IsArgSafe, append_quoted_arg-IsArgSafe}
use justhttp.Bytesconv.Quote.RoundTrip.{
  decode_arg_append-append_quoted_arg, append_quoted_arg-encoded,
}

-- An argument that the text form can express: it has a key or a value, and no value where its
-- flag says so.
pub record IsWritable (kv : ArgsKv) : Type 0 where
  pub key_bytes : All IsByte kv.key
  pub value_bytes : All IsByte kv.value
  pub filled : (kv.key ≢ []) ⊎ (kv.value ≢ [])
  pub flagged : kv.no_value ≡ true → kv.value ≡ []

abbrev enc : Bytes → Bytes
enc = append_quoted_arg []

abbrev part : ArgsKv → Bytes
part kv = enc kv.key ++ (if kv.no_value then [] else b'=' ∷ enc kv.value)

append_quoted_arg-enc : (s dst : Bytes) → append_quoted_arg dst s ≡ dst ++ enc s
append_quoted_arg-enc s dst = rw (append_quoted_arg-encoded s dst, append_quoted_arg-encoded s [])

append_kv_fields :
    (dst k v : Bytes) (flag : Bool)
    → append_kv dst (record { key = k; value = v; no_value = flag })
      ≡ dst ++ (enc k ++ (if flag then [] else b'=' ∷ enc v))
unfolding append_kv
append_kv_fields dst k v true = rw (append-nil (enc k)) (append_quoted_arg-enc k dst)
append_kv_fields dst k [] false =
    rw (append_quoted_arg-enc k dst) (unfold append_quoted_arg in append_assoc dst _ _)
append_kv_fields dst k (x ∷ v) false = ground (
  arith,
  append_quoted_arg-enc (x ∷ v) (append_quoted_arg dst k ++ b'=' ∷ []),
  append_quoted_arg-enc k dst,
  append_assoc dst (enc k) (b'=' ∷ []),
  append_assoc dst (enc k ++ b'=' ∷ []) (enc (x ∷ v)),
  append_assoc (enc k) (b'=' ∷ []) (enc (x ∷ v)),
)

append_kv-part : (dst : Bytes) (kv : ArgsKv) → append_kv dst kv ≡ dst ++ part kv
append_kv-part dst kv = append_kv_fields dst kv.key kv.value kv.no_value

abbrev joined : List ArgsKv → Bytes
joined [] = []
joined (kv ∷ []) = part kv
joined (kv ∷ kv' ∷ kvs) = part kv ++ (b'&' ∷ joined (kv' ∷ kvs))

append_bytes-joined : (kvs : List ArgsKv) (dst : Bytes) → append_bytes dst kvs ≡ dst ++ joined kvs
unfolding append_bytes
append_bytes-joined [] dst = sym (append-nil dst)
append_bytes-joined (kv ∷ []) dst = append_kv-part dst kv
append_bytes-joined (kv ∷ kv' ∷ kvs) dst =
    simp (append_bytes-joined (kv' ∷ kvs), append_kv-part, append_assoc)

Lacks-enc : (b : ℕ) (s : Bytes) → (b ≡ b'=') ⊎ (b ≡ b'&') → All IsArgSafe s → Lacks b s
Lacks-enc b [] e h = tt
Lacks-enc b (c ∷ s) e (hc, hs) = (ground arith, Lacks-enc b s e hs)

cut_at-Lacks : (sep : ℕ) (p : Bytes) → Lacks sep p → cut_at sep p ≡ (p, none)
cut_at-Lacks sep [] h = refl
cut_at-Lacks sep (c ∷ p) (hc, hp) = ground (arith, cut_at-Lacks sep p hp)

cut_at-sep : (sep : ℕ) (p r : Bytes) → Lacks sep p → cut_at sep (p ++ (sep ∷ r)) ≡ (p, some r)
cut_at-sep sep [] r h = ground arith
cut_at-sep sep (c ∷ p) r (hc, hp) = ground (arith, cut_at-sep sep p r hp)

split-Lacks : (sep : ℕ) (p : Bytes) → Lacks sep p → split sep p ≡ p ∷ []
split-Lacks sep [] h = refl
split-Lacks sep (c ∷ p) (hc, hp) = ground (arith, split-Lacks sep p hp)

split-sep : (sep : ℕ) (p r : Bytes) → Lacks sep p → split sep (p ++ (sep ∷ r)) ≡ p ∷ split sep r
split-sep sep [] r h = ground arith
split-sep sep (c ∷ p) r (hc, hp) = ground (arith, split-sep sep p r hp)

decode-enc : (s : Bytes) → All IsByte s → decode_arg_append [] (enc s) ≡ s
decode-enc s h = decode_arg_append-append_quoted_arg s [] h

enc-Lacks : (b : ℕ) (s : Bytes) → (b ≡ b'=') ⊎ (b ≡ b'&') → All IsByte s → Lacks b (enc s)
enc-Lacks b s e h = Lacks-enc b (enc s) e (append_quoted_arg-IsArgSafe s h)

arg_from-part :
    (k v : Bytes) (flag : Bool)
    → IsWritable (record { key = k; value = v; no_value = flag })
    → arg_from (cut_at b'=' (enc k ++ (if flag then [] else b'=' ∷ enc v)))
      ≡ record { key = k; value = v; no_value = flag }
arg_from-part k v true w =
    rw (append-nil (enc k), cut_at-Lacks b'=' (enc k) (enc-Lacks b'=' k (inl refl) w.key_bytes))
      (rw (decode-enc k w.key_bytes, w.flagged refl))
arg_from-part k v false w =
    rw (cut_at-sep b'=' (enc k) (enc v) (enc-Lacks b'=' k (inl refl) w.key_bytes))
      (rw (decode-enc k w.key_bytes, decode-enc v w.value_bytes))

value_part-Lacks :
    (v : Bytes) (flag : Bool) → All IsByte v → Lacks b'&' (if flag then [] else b'=' ∷ enc v)
value_part-Lacks v true h = tt
value_part-Lacks v false h = (omega arith, enc-Lacks b'&' v (inr refl) h)

part-Lacks : (kv : ArgsKv) → IsWritable kv → Lacks b'&' (part kv)
part-Lacks kv w =
    All-append (λ c. c ≢ b'&') (enc kv.key) _ (enc-Lacks b'&' kv.key (inr refl) w.key_bytes)
      (value_part-Lacks kv.value kv.no_value w.value_bytes)

keep_first-IsWritable :
    (k v : Bytes) (flag : Bool) (kvs : List ArgsKv)
    → (k ≢ []) ⊎ (v ≢ [])
    → keep_first (record { key = k; value = v; no_value = flag }) kvs
      ≡ record { key = k; value = v; no_value = flag } ∷ kvs
keep_first-IsWritable [] [] flag kvs (inl h) = absurd (h refl)
keep_first-IsWritable [] [] flag kvs (inr h) = absurd (h refl)
keep_first-IsWritable (c ∷ k) v flag kvs h = ground arith
keep_first-IsWritable [] (c ∷ v) flag kvs h = ground arith

-- The parts found in the text of `kvs` are `kvs`.
found-joined : (kvs : List ArgsKv) → All IsWritable kvs → query_args (joined kvs) ≡ kvs
unfolding query_args
found-joined [] h = query_args-nil
found-joined (kv ∷ []) (w, _) =
    rw (split-Lacks b'&' (part kv) (part-Lacks kv w), arg_from-part kv.key kv.value kv.no_value w)
      (keep_first-IsWritable kv.key kv.value kv.no_value [] w.filled)
found-joined (kv ∷ kv' ∷ kvs) (w, ws) =
    rw
      (
        split-sep b'&' (part kv) (joined (kv' ∷ kvs)) (part-Lacks kv w),
        arg_from-part kv.key kv.value kv.no_value w,
      )
      (keep_first-IsWritable kv.key kv.value kv.no_value _ w.filled
        ∙ ap (◌∷◌ kv) (found-joined (kv' ∷ kvs) ws))

-- Parsing the text of writable arguments finishes and gives these arguments back, in order, with
-- their flags, whatever the object held before.
pub parse_bytes-append_bytes :
    (h : Slots) (kvs : List ArgsKv)
    → All IsWritable kvs
    → (h' : Slots) × (parse_bytes h (append_bytes [] kvs) ≡ some h') × (h'.visible ≡ kvs)
parse_bytes-append_bytes h kvs ws =
    let (h', e, v) = parse_bytes-query_args h (append_bytes [] kvs) in
    (h', e, v ∙ rw (append_bytes-joined kvs []) (found-joined kvs ws))
