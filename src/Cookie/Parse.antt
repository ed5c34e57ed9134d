-- ===== src/Cookie/Parse.antt =====
-- `Cookie.ParseBytes` of cookie.go.
use justhttp.Base.{
  ℕ, zero, suc, ◌+◌, Bool, true, false, ◌&&◌, none, some, [], ◌∷◌, ◌==◌, if◌then◌else◌, length,
  Bytes, codes, Result, ok, err,
}
use Prim.Native.Nat.{bit_or}
use justhttp.Base.Int.{pos}
use justhttp.Args.Slots.{ArgsKv, new_slot}
use justhttp.Bytesconv.Uint.{IntError, parse_uint}
use justhttp.Cookie.State.{
  TimePackage, Cookie, reset, lax_mode, strict_mode, none_mode, default_mode,
}
use justhttp.Cookie.Scan.{next}

unfoldable pub case_insensitive_compare : Bytes → Bytes → Bool
case_insensitive_compare [] [] = true
case_insensitive_compare [] (d ∷ b) = false
case_insensitive_compare (c ∷ a) [] = false
case_insensitive_compare (c ∷ a) (d ∷ b) =
    bit_or c 32 == bit_or d 32 && case_insensitive_compare a b

pub data CookieError : Type 0 where
  no_cookies bad_expires unfinished : CookieError
  bad_max_age : IntError → CookieError

module _ {Time : Type 0} (time : TimePackage Time) where
  -- The case "samesite".
  unfoldable pub parse_same_site : Cookie Time → Bytes → Cookie Time
  unfolding case_insensitive_compare
  parse_same_site c [] = c
  parse_same_site c (v ∷ value) =
      let first = bit_or v 32 in
      if first == b'l'
      then if case_insensitive_compare (codes "Lax") (v ∷ value)
        then record c { same_site = lax_mode }
        else c
      else if first == b's'
      then if case_insensitive_compare (codes "Strict") (v ∷ value)
        then record c { same_site = strict_mode }
        else c
      else if first == b'n'
      then if case_insensitive_compare (codes "None") (v ∷ value)
        then record c { same_site = none_mode }
        else c
      else c

  -- The case "max-age".
  unfoldable pub parse_max_age : Cookie Time → Bytes → Result CookieError (Cookie Time)
  unfolding parse_uint
  parse_max_age c value = elim (parse_uint value) [
    | ok v ↦ ok (record c { max_age = pos v })
    | err e ↦ err (bad_max_age e)
  ]

  -- The case "expires".
  unfoldable pub parse_expires : Cookie Time → Bytes → Result CookieError (Cookie Time)
  parse_expires c value = elim (time.parse_rfc1123 value) [
    | some exptime ↦ ok (record c { expire = exptime })
    | none ↦ (elim (time.parse_dashed value) [
      | some exptime ↦ ok (record c { expire = exptime })
      | none ↦ err bad_expires
    ])
  ]

  -- The switch on a key's first char. The key is not empty.
  unfoldable pub parse_attribute : Cookie Time → ℕ → ArgsKv → Result CookieError (Cookie Time)
  unfolding case_insensitive_compare parse_max_age parse_expires parse_same_site
  parse_attribute c first kv =
      if first == b'm'
      then if case_insensitive_compare (codes "max-age") kv.key
        then parse_max_age c kv.value
        else ok c
      else if first == b'e'
      then if case_insensitive_compare (codes "expires") kv.key
        then parse_expires c kv.value
        else ok c
      else if first == b'd'
      then if case_insensitive_compare (codes "domain") kv.key
        then ok (record c { domain = kv.value })
        else ok c
      else if first == b'p'
      then if case_insensitive_compare (codes "path") kv.key
        then ok (record c { path = kv.value })
        else ok c
      else if first == b's'
      then if case_insensitive_compare (codes "SameSite") kv.key
        then ok (parse_same_site c kv.value)
        else ok c
      else ok c

  -- The switch on a value's first char, where there is no key.
  unfoldable pub parse_flag : Cookie Time → ℕ → Bytes → Cookie Time
  unfolding case_insensitive_compare
  parse_flag c first value =
      if first == b'h'
      then if case_insensitive_compare (codes "HttpOnly") value
        then record c { http_only = true }
        else c
      else if first == b's'
      then if case_insensitive_compare (codes "secure") value
        then record c { secure = true }
        else if case_insensitive_compare (codes "SameSite") value
        then record c { same_site = default_mode }
        else c
      else c

  -- A round of the loop.
  unfoldable pub parse_part : Cookie Time → Bytes → ArgsKv → Result CookieError (Cookie Time)
  unfolding parse_attribute parse_flag
  parse_part c (k ∷ key) kv = parse_attribute c (bit_or k 32) kv
  parse_part c [] kv = elim kv.value [
    | [] ↦ ok c
    | v ∷ value ↦ ok (parse_flag c (bit_or v 32) (v ∷ value))
  ]

  -- The loop. The first argument bounds its rounds.
  unfoldable pub parse_parts : ℕ → Cookie Time → ArgsKv → Bytes → Result CookieError (Cookie Time)
  unfolding parse_part next
  parse_parts zero c kv b = err unfinished
  parse_parts (suc rounds) c kv b = elim (next b kv) [
    | none ↦ ok c
    | some (kv', b') ↦ (elim (parse_part c kv'.key kv') [
      | err e ↦ err e
      | ok c' ↦ parse_parts rounds c' kv' b'
    ])
  ]

  -- `Cookie.ParseBytes`: a round takes at least a byte. What it leaves of the cookie when it returns
  -- an error is not told.
  unfoldable pub parse_set_cookie : Cookie Time → Bytes → Result CookieError (Cookie Time)
  unfolding parse_parts next reset
  parse_set_cookie c src = elim (next src new_slot) [
    | none ↦ err no_cookies
    | some (kv, b) ↦
        parse_parts (length src + 1) (record (reset time c) { key = kv.key; value = kv.value }) kv b
  ]
