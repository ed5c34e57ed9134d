-- ===== src/Cookie/Scan.antt =====
-- The scanner of cookies and the request cookies, cookie.go.
use justhttp.Base.{
  ℕ, zero, suc, ◌+◌, Bool, true, false, ◌&&◌, ◌||◌, Option, none, some, List, [], ◌∷◌, ◌++◌, ltb,
  ◌==◌, if◌then◌else◌, length, take, Bytes, codes, index_byte,
}
use justhttp.Args.Slots.{ArgsKv, Slots, alloc_arg}

-- The first loop of `decodeCookieArg`.
unfoldable pub trim_left : Bytes → Bytes
trim_left [] = []
trim_left (c ∷ src) = let rest = trim_left src in if c == b' ' then rest else c ∷ src

-- The second loop: without the spaces at the end.
unfoldable pub trim_right : Bytes → Bytes
trim_right [] = []
trim_right (c ∷ src) = elim (trim_right src) [
  | [] ↦ (if c == b' ' then [] else c ∷ [])
  | d ∷ rest ↦ c ∷ d ∷ rest
]

-- `src[:len(src)-1]` if the text ends with a '"'.
unfoldable pub cut_quote : Bytes → Option Bytes
cut_quote [] = none
cut_quote (c ∷ []) = if c == b'"' then some [] else none
cut_quote (c ∷ d ∷ src) = elim (cut_quote (d ∷ src)) [ none ↦ none | some rest ↦ some (c ∷ rest) ]

-- The text between the quotes.
unfoldable pub strip_quotes : Bytes → Bytes
unfolding cut_quote
strip_quotes [] = []
strip_quotes (c ∷ src) =
    if c == b'"' then (elim (cut_quote src) [ none ↦ c ∷ src | some inner ↦ inner ]) else c ∷ src

unfoldable pub decode_cookie_arg : Bytes → Bool → Bytes
unfolding trim_left trim_right strip_quotes
decode_cookie_arg src skip_quotes =
    let trimmed = trim_right (trim_left src) in
    if skip_quotes then strip_quotes trimmed else trimmed

-- The end of a round: the key, unless the loop has set it, and the value.
unfoldable pub finish_cookie : Bool → Bytes → ArgsKv → ArgsKv
unfolding decode_cookie_arg
finish_cookie is_key part kv =
    let key : Bytes = if is_key then [] else kv.key in
    record kv { key = key; value = decode_cookie_arg part true }

-- The loop of `cookieScanner.next`, with the rest of the text. `part` is `b[:i]` while `is_key`
-- holds, and `b[k:i]` later.
unfoldable pub next_loop : Bool → Bytes → ArgsKv → Bytes → ArgsKv × Bytes
unfolding finish_cookie decode_cookie_arg
next_loop is_key part kv [] = (finish_cookie is_key part kv, [])
next_loop is_key part kv (c ∷ b) =
    let value_next = next_loop false [] (record kv { key = decode_cookie_arg part false }) b in
    let part_next = next_loop is_key (part ++ c ∷ []) kv b in
    if c == b'=' && is_key
    then value_next
    else if c == b';'
    then (finish_cookie is_key part kv, b)
    else part_next

-- `cookieScanner.next`.
unfoldable pub next : Bytes → ArgsKv → Option (ArgsKv × Bytes)
unfolding next_loop
next [] kv = none
next (c ∷ b) kv = some (next_loop true [] kv (c ∷ b))

-- The loop of `parseRequestCookies`. The first argument bounds its rounds.
unfoldable pub parse_loop : ℕ → List ArgsKv → ArgsKv → List ArgsKv → Bytes → Option Slots
unfolding next alloc_arg
parse_loop zero cookies kv spare b = none
parse_loop (suc rounds) cookies kv spare b = elim (next b kv) [
  | none ↦ some (record { visible = cookies; spare = kv ∷ spare })
  | some (kv', b') ↦
      let more =
        parse_loop rounds (cookies ++ kv' ∷ []) (alloc_arg spare).0 (alloc_arg spare).1 b' in
      let again = parse_loop rounds cookies kv' spare b' in
      if ltb 0 (length kv'.key) || ltb 0 (length kv'.value) then more else again
]

-- `parseRequestCookies`, behind the cookies that are there: a round takes at least a byte.
unfoldable pub parse_request_cookies : Slots → Bytes → Option Slots
unfolding parse_loop alloc_arg
parse_request_cookies cookies src =
    parse_loop (length src + 1) cookies.visible (alloc_arg cookies.spare).0
      (alloc_arg cookies.spare).1 src

-- What a round of `appendRequestCookieBytes` writes, the "; " apart.
unfoldable pub append_cookie : Bytes → ArgsKv → Bytes
append_cookie dst kv =
    if ltb 0 (length kv.key) then ((dst ++ kv.key) ++ b'=' ∷ []) ++ kv.value else dst ++ kv.value

unfoldable pub append_request_cookie_bytes : Bytes → List ArgsKv → Bytes
unfolding append_cookie
append_request_cookie_bytes dst [] = dst
append_request_cookie_bytes dst (kv ∷ []) = append_cookie dst kv
append_request_cookie_bytes dst (kv ∷ kv' ∷ kvs) =
    append_request_cookie_bytes (append_cookie dst kv ++ codes "; ") (kv' ∷ kvs)

unfoldable pub append_response_cookie_bytes : Bytes → List ArgsKv → Bytes
append_response_cookie_bytes dst [] = dst
append_response_cookie_bytes dst (kv ∷ []) = dst ++ kv.value
append_response_cookie_bytes dst (kv ∷ kv' ∷ kvs) =
    append_response_cookie_bytes ((dst ++ kv.value) ++ codes "; ") (kv' ∷ kvs)

-- `getCookieKey`.
unfoldable pub get_cookie_key : Bytes → Bytes
unfolding decode_cookie_arg
get_cookie_key src = elim (index_byte src b'=') [
  | none ↦ decode_cookie_arg src false
  | some n ↦ decode_cookie_arg (take n src) false
]
