-- ===== src/Cookie/Ending.antt =====
-- `Cookie.ParseBytes` ends on every header.
use justhttp.Base.{
  ℕ, zero, suc, ◌+◌, ◌-◌, ◌≤◌, ◌<◌, ◌≡◌, ap, ◌≢◌, inl, inr, Bool, true, false, some, [], ◌∷◌, ◌++◌,
  arith, ◌==◌, if◌then◌else◌, Option-cases, length, Bytes, codes, Result, ok, err,
}
use justhttp.Args.Slots.{ArgsKv, new_slot}
use Prim.Native.Nat.{bit_or}
use Prim.Native.String.{String}
use justhttp.Base.Int.{pos}
use justhttp.Bytesconv.Uint.{IntError, parse_uint}
use justhttp.Cookie.State.{TimePackage, Cookie, reset}
use justhttp.Cookie.Scan.{decode_cookie_arg, next_loop, next}
use justhttp.Cookie.Parse.{
  CookieError, unfinished, bad_max_age, parse_part, case_insensitive_compare, parse_same_site,
  parse_parts, parse_set_cookie, parse_max_age, parse_expires, parse_attribute,
}

next_loop_shorter :
    (is_key : Bool) (part : Bytes) (kv : ArgsKv) (b : Bytes)
    → length (next_loop is_key part kv b).1 ≤ length b - 1
unfolding next_loop
next_loop_shorter is_key part kv [] = omega arith
next_loop_shorter is_key part kv (c ∷ b) = ground (
  arith,
  next_loop_shorter false [] (record kv { key = decode_cookie_arg part false }) b,
  next_loop_shorter is_key (part ++ c ∷ []) kv b,
)

-- A call of the scanner takes at least a byte.
next_takes :
    (b : Bytes) (kv kv' : ArgsKv) (b' : Bytes) → next b kv ≡ some (kv', b') → length b' < length b
unfolding next
next_takes [] kv kv' b' h = cc
next_takes (c ∷ b) kv kv' b' h =
    let e : (next_loop true [] kv (c ∷ b)).1 ≡ b' = ground (arith, h) in
    let shorter : length (next_loop true [] kv (c ∷ b)).1 ≤ length (c ∷ b) - 1 =
      next_loop_shorter true [] kv (c ∷ b) in
    omega (arith, ap length e, shorter)

module _ {Time : Type 0} (time : TimePackage Time) where
  -- A result other than that of a loop that has run out of its bound.
  abbrev pub Ended : Result CookieError (Cookie Time) → Type 0
  Ended m = m ≢ err unfinished

  Ended-ok : (c : Cookie Time) → Ended (ok c)
  Ended-ok c h = cc

  Ended-if :
      (t : Bool) (m n : Result CookieError (Cookie Time))
      → Ended m
      → Ended n
      → Ended (if t then m else n)
  Ended-if true m n hm hn = hm
  Ended-if false m n hm hn = hn

  parse_max_age-Ended : (c : Cookie Time) (value : Bytes) → Ended (parse_max_age time c value)
  unfolding parse_max_age
  parse_max_age-Ended c value = after (parse_uint value)
    where
      after :
          (r : Result IntError ℕ)
          → Ended
              (elim r [ ok v ↦ ok (record c { max_age = pos v }) | err e ↦ err (bad_max_age e) ])
      after (ok v) = Ended-ok _
      after (err e) = λ h. cc

  parse_expires-Ended : (c : Cookie Time) (value : Bytes) → Ended (parse_expires time c value)
  unfolding parse_expires
  parse_expires-Ended c value = elim (Option-cases (time.parse_rfc1123 value)) [
    | inr (t, first) ↦ rw (parse_expires, first) (Ended-ok _)
    | inl refused ↦ (elim (Option-cases (time.parse_dashed value)) [
      | inr (t, second) ↦ rw (parse_expires, refused, second) (Ended-ok _)
      | inl again ↦ rw (parse_expires, refused, again) (λ h. cc)
    ])
  ]

  parse_attribute-Ended :
      (c : Cookie Time) (first : ℕ) (kv : ArgsKv) → Ended (parse_attribute time c first kv)
  unfolding parse_attribute
  parse_attribute-Ended c first kv =
      Ended-if (first == b'm') _ _
        (Ended-if (is "max-age") _ _ (parse_max_age-Ended c kv.value) (Ended-ok c))
        (Ended-if (first == b'e') _ _
          (Ended-if (is "expires") _ _ (parse_expires-Ended c kv.value) (Ended-ok c))
          (Ended-if (first == b'd') _ _
            (Ended-if (is "domain") _ _ (Ended-ok (record c { domain = kv.value })) (Ended-ok c))
            (Ended-if (first == b'p') _ _
              (Ended-if (is "path") _ _ (Ended-ok (record c { path = kv.value })) (Ended-ok c))
              (Ended-if (first == b's') _ _
                (Ended-if (is "SameSite") _ _ (Ended-ok (parse_same_site time c kv.value))
                  (Ended-ok c))
                (Ended-ok c)))))
    where
      is : String → Bool
      is name = case_insensitive_compare (codes name) kv.key

  parse_part_fields :
      (c : Cookie Time) (key k v : Bytes) (flag : Bool)
      → Ended (parse_part time c key (record { key = k; value = v; no_value = flag }))
  unfolding parse_part
  parse_part_fields c [] k [] flag = Ended-ok _
  parse_part_fields c [] k (x ∷ v) flag = Ended-ok _
  parse_part_fields c (x ∷ key) k v flag =
      parse_attribute-Ended c (bit_or x 32) (record { key = k; value = v; no_value = flag })

  parse_parts-Ended :
      (rounds : ℕ) (c : Cookie Time) (kv : ArgsKv) (b : Bytes)
      → length b < rounds
      → Ended (parse_parts time rounds c kv b)
  unfolding parse_parts
  parse_parts-Ended zero c kv b fuel = absurd (omega arith)
  parse_parts-Ended (suc rounds) c kv b fuel = elim (Option-cases (next b kv)) [
    | inl nowhere ↦ rw (parse_parts, nowhere) (Ended-ok _)
    | inr ((kv', b'), found) ↦
        rw (parse_parts, found)
          (after kv' b'
            (λ c'.
              parse_parts-Ended rounds c' kv' b'
                (omega (arith, fuel, next_takes b kv kv' b' found)))
            (parse_part time c kv'.key kv')
            (parse_part_fields c kv'.key kv'.key kv'.value kv'.no_value))
  ]
    where
      after :
          (kv' : ArgsKv) (b' : Bytes)
          → ((c' : Cookie Time) → Ended (parse_parts time rounds c' kv' b'))
          → (m : Result CookieError (Cookie Time)) → Ended m
          → Ended (elim m [ err e ↦ err e | ok c' ↦ parse_parts time rounds c' kv' b' ])
      after kv' b' later (ok c') h = later c'
      after kv' b' later (err e) h = h

  -- `Cookie.ParseBytes` ends on every header, whatever package time makes of a date.
  pub parse_set_cookie-Ended : (c : Cookie Time) (src : Bytes) → Ended (parse_set_cookie time c src)
  unfolding parse_set_cookie
  parse_set_cookie-Ended c src = elim (Option-cases (next src new_slot)) [
    | inl nowhere ↦ rw (parse_set_cookie, nowhere) (λ h. cc)
    | inr ((kv, b), found) ↦
        rw (parse_set_cookie, found)
          (parse_parts-Ended (length src + 1)
            (record (reset time c) { key = kv.key; value = kv.value }) kv b
            (omega (arith, next_takes src new_slot kv b found)))
  ]
